-- ===== src/Reconcile/TestNode.antt =====
-- Test data: a node that holds its streams in six functions from an id to a stream, and two snapshots
-- for src/daemon/reconcile_engine.cpp.
use nmos_client.Base.{
  ℤ, eqb_ℤ, String, true, false, List, [], ◌∷◌, Option, none, some, Except, ok, err, pos, ◌≡◌, ◌≢◌,
  refl, ap, sym, ◌==◌, string_eq, if◌then◌else◌, eqb_ℤ_iff,
}
use nmos_client.Dto.Types.{SnapshotDto, AncillarySender, Redudancy}
use nmos_client.Dto.Snapshot.{empty_snapshot}
use nmos_client.Reconcile.Kind.{
  Kind, StreamOf, id_of, video_receiver, audio_receiver, ancillary_receiver, video_sender,
  audio_sender, ancillary_sender, plain,
}
use nmos_client.Reconcile.Runtime.{NodeOps, IsRuntime}
use nmos_client.Reconcile.Engine.{Order}
use nmos_client.Reconcile.Lists.{IsOrder}
use nmos_client.Reconcile.Matches.{IsEquality}

pub record Held : Type 0 where
  pub video_receivers_held : String → Option (StreamOf ℤ video_receiver)
  pub audio_receivers_held : String → Option (StreamOf ℤ audio_receiver)
  pub ancillary_receivers_held : String → Option (StreamOf ℤ ancillary_receiver)
  pub video_senders_held : String → Option (StreamOf ℤ video_sender)
  pub audio_senders_held : String → Option (StreamOf ℤ audio_sender)
  pub ancillary_senders_held : String → Option (StreamOf ℤ ancillary_sender)

abbrev pub held : (k : Kind) → Held → String → Option (StreamOf ℤ k)
held video_receiver s = s.video_receivers_held
held audio_receiver s = s.audio_receivers_held
held ancillary_receiver s = s.ancillary_receivers_held
held video_sender s = s.video_senders_held
held audio_sender s = s.audio_senders_held
held ancillary_sender s = s.ancillary_senders_held

abbrev pub at : {T : Type 0} → String → Option T → (String → Option T) → String → Option T
at i v f j = if i == j then v else f j

abbrev pub hold : (k : Kind) → String → Option (StreamOf ℤ k) → Held → Held
hold video_receiver i v s = record s { video_receivers_held = at i v s.video_receivers_held }
hold audio_receiver i v s = record s { audio_receivers_held = at i v s.audio_receivers_held }
hold ancillary_receiver i v s = record s {
  ancillary_receivers_held = at i v s.ancillary_receivers_held;
}
hold video_sender i v s = record s { video_senders_held = at i v s.video_senders_held }
hold audio_sender i v s = record s { audio_senders_held = at i v s.audio_senders_held }
hold ancillary_sender i v s = record s { ancillary_senders_held = at i v s.ancillary_senders_held }

abbrev pub test_node : NodeOps ℤ Held
test_node = record {
  set_ptp_clock = λ gmid locked domain s. (ok tt, s);
  set_runtime_interfaces = λ interfaces s. (ok tt, s);
  add = λ k x s. (ok tt, hold k (id_of ℤ k x) (some (plain ℤ k x)) s);
  update = λ k x s. (ok tt, hold k (id_of ℤ k x) (some (plain ℤ k x)) s);
  remove = λ k i s. (ok tt, hold k i none s);
}

held-hold :
    (k : Kind) (i : String) (v : Option (StreamOf ℤ k)) (s : Held) (j : String)
    → held k (hold k i v s) j ≡ (if i == j then v else held k s j)
held-hold video_receiver i v s j = refl
held-hold audio_receiver i v s j = refl
held-hold ancillary_receiver i v s j = refl
held-hold video_sender i v s j = refl
held-hold audio_sender i v s j = refl
held-hold ancillary_sender i v s j = refl

held-hold_other :
    (k l : Kind) (i : String) (v : Option (StreamOf ℤ k)) (s : Held)
    → k ≢ l
    → (j : String) → held l (hold k i v s) j ≡ held l s j
held-hold_other video_receiver video_receiver i v s d j = absurd (d refl)
held-hold_other audio_receiver audio_receiver i v s d j = absurd (d refl)
held-hold_other ancillary_receiver ancillary_receiver i v s d j = absurd (d refl)
held-hold_other video_sender video_sender i v s d j = absurd (d refl)
held-hold_other audio_sender audio_sender i v s d j = absurd (d refl)
held-hold_other ancillary_sender ancillary_sender i v s d j = absurd (d refl)
held-hold_other video_receiver audio_receiver i v s d j = refl
held-hold_other video_receiver ancillary_receiver i v s d j = refl
held-hold_other video_receiver video_sender i v s d j = refl
held-hold_other video_receiver audio_sender i v s d j = refl
held-hold_other video_receiver ancillary_sender i v s d j = refl
held-hold_other audio_receiver video_receiver i v s d j = refl
held-hold_other audio_receiver ancillary_receiver i v s d j = refl
held-hold_other audio_receiver video_sender i v s d j = refl
held-hold_other audio_receiver audio_sender i v s d j = refl
held-hold_other audio_receiver ancillary_sender i v s d j = refl
held-hold_other ancillary_receiver video_receiver i v s d j = refl
held-hold_other ancillary_receiver audio_receiver i v s d j = refl
held-hold_other ancillary_receiver video_sender i v s d j = refl
held-hold_other ancillary_receiver audio_sender i v s d j = refl
held-hold_other ancillary_receiver ancillary_sender i v s d j = refl
held-hold_other video_sender video_receiver i v s d j = refl
held-hold_other video_sender audio_receiver i v s d j = refl
held-hold_other video_sender ancillary_receiver i v s d j = refl
held-hold_other video_sender audio_sender i v s d j = refl
held-hold_other video_sender ancillary_sender i v s d j = refl
held-hold_other audio_sender video_receiver i v s d j = refl
held-hold_other audio_sender audio_receiver i v s d j = refl
held-hold_other audio_sender ancillary_receiver i v s d j = refl
held-hold_other audio_sender video_sender i v s d j = refl
held-hold_other audio_sender ancillary_sender i v s d j = refl
held-hold_other ancillary_sender video_receiver i v s d j = refl
held-hold_other ancillary_sender audio_receiver i v s d j = refl
held-hold_other ancillary_sender ancillary_receiver i v s d j = refl
held-hold_other ancillary_sender video_sender i v s d j = refl
held-hold_other ancillary_sender audio_sender i v s d j = refl

after_ok : (s t s' : Held) → ◌≡◌ {A = Except (Unit {0}) × Held} (ok tt, t) (ok tt, s') → s' ≡ t
after_ok s t s' e = sym (ap (λ (r : Except (Unit {0}) × Held). r.1) e)

never :
    (t s' : Held) (e : String) {A : Type 0}
    → ◌≡◌ {A = Except (Unit {0}) × Held} (ok tt, t) (err e, s')
    → A
never t s' e h = absurd (cc (ap (λ (r : Except (Unit {0}) × Held). r.0) h))

abbrev pub held_by : (k : Kind) → Held → String → Option (StreamOf ℤ k)
held_by k s j = held k s j

pub test_node-IsRuntime : IsRuntime test_node held_by
test_node-IsRuntime = record {
  clock_keeps = λ gmid locked domain s s' e k j. rw (after_ok s s s' e);
  interfaces_keep = λ interfaces s s' e k j. rw (after_ok s s s' e);
  add_view = λ k x s s' e j.
      rw (after_ok s (hold k (id_of ℤ k x) (some (plain ℤ k x)) s) s' e)
        (held-hold k (id_of ℤ k x) (some (plain ℤ k x)) s j);
  update_view = λ k x s s' e j.
      rw (after_ok s (hold k (id_of ℤ k x) (some (plain ℤ k x)) s) s' e)
        (held-hold k (id_of ℤ k x) (some (plain ℤ k x)) s j);
  remove_view = λ k i s s' e j. rw (after_ok s (hold k i none s) s' e) (held-hold k i none s j);
  add_keeps = λ k l x s s' d e j.
      rw (after_ok s (hold k (id_of ℤ k x) (some (plain ℤ k x)) s) s' e)
        (held-hold_other k l (id_of ℤ k x) (some (plain ℤ k x)) s d j);
  update_keeps = λ k l x s s' d e j.
      rw (after_ok s (hold k (id_of ℤ k x) (some (plain ℤ k x)) s) s' e)
        (held-hold_other k l (id_of ℤ k x) (some (plain ℤ k x)) s d j);
  remove_keeps =
      λ k l i s s' d e j. rw (after_ok s (hold k i none s) s' e) (held-hold_other k l i none s d j);
  clock_fails = λ gmid locked domain s s' x e k j. never s s' x e;
  interfaces_fail = λ interfaces s s' x e k j. never s s' x e;
  add_fails = λ k x s s' y e l j. never (hold k (id_of ℤ k x) (some (plain ℤ k x)) s) s' y e;
  update_fails = λ k x s s' y e l j. never (hold k (id_of ℤ k x) (some (plain ℤ k x)) s) s' y e;
  remove_fails = λ k i s s' y e l j. never (hold k i none s) s' y e;
}

abbrev pub in_order : (k : Kind) → Order (StreamOf ℤ k)
in_order k m = m

pub in_order-IsOrder : (k : Kind) → IsOrder (in_order k)
in_order-IsOrder k = record { distinct = λ m d. d; same = λ m d i. refl }

pub eqb_ℤ-IsEquality : IsEquality {D = ℤ} eqb_ℤ
eqb_ℤ-IsEquality = eqb_ℤ_iff

abbrev pub no_redudancy : Redudancy
no_redudancy = record { present = false; enable = false; source_ip = ""; ip = ""; port = pos 0 }

abbrev pub anc : String → String → AncillarySender
anc the_id the_name = record {
  id = the_id;
  sender_id = "";
  name = the_name;
  format = "";
  source_ip = "10.0.0.3";
  enable = true;
  ip = "239.0.0.9";
  port = pos 5008;
  redudancy = no_redudancy;
}

abbrev pub with_ancillary : List AncillarySender → SnapshotDto ℤ
with_ancillary xs = record empty_snapshot { ancillary_senders = xs }

-- Sender "a" is renamed, "b" goes and "c" comes.
abbrev pub first_snapshot : SnapshotDto ℤ
first_snapshot = with_ancillary (anc "a" "one" ∷ anc "b" "two" ∷ [])

abbrev pub second_snapshot : SnapshotDto ℤ
second_snapshot = with_ancillary (anc "a" "uno" ∷ anc "c" "three" ∷ [])

abbrev pub nothing_held : Held
nothing_held = record {
  video_receivers_held = λ j. none;
  audio_receivers_held = λ j. none;
  ancillary_receivers_held = λ j. none;
  video_senders_held = λ j. none;
  audio_senders_held = λ j. none;
  ancillary_senders_held = λ j. none;
}

abbrev pub started : Held
started =
    hold ancillary_sender "b" (some (anc "b" "two"))
      (hold ancillary_sender "a" (some (anc "a" "one")) nothing_held)
