-- ===== src/Reconcile/Matches.antt =====
-- What `apply_snapshot` and `drain_all` of src/daemon/reconcile_engine.cpp do for the next snapshot:
-- the streams that are held are those of the snapshot, up to the comparison that the engine uses.
use nmos_client.Base.{
  String, Bool, true, Option, none, some, ok, ◌≡◌, refl, ap, ◌↔◌, ◌∙◌, arith, Bool-cases, inl, inr,
  eqb_ℤ_iff, string_iff, same_bool_iff, string_eq, ==-refl, bool_eq, int_eq,
}
use nmos_client.Base.Map.{find}
use nmos_client.Dto.Types.{SnapshotDto, VideoSender, AudioSender, AncillarySender, AudioReceiver}
use nmos_client.Dto.Equivalent.{equivalent_audio_receiver}
use nmos_client.Dto.Equivalent.Laws.{
  equivalent_redudancy_iff, equivalent_video_sender_iff, equivalent_audio_sender_iff,
  equivalent_ancillary_sender_iff, equivalent_video_receiver_iff, equivalent_ancillary_receiver_iff,
}
use nmos_client.Reconcile.Kind.{
  Kind, StreamOf, id_of, streams, equivalent, video_receiver, audio_receiver, ancillary_receiver,
  video_sender, audio_sender, ancillary_sender, plain,
}
use nmos_client.Reconcile.Runtime.{NodeOps, IsRuntime}
use nmos_client.Reconcile.Engine.{Order, make_map, value_or_empty, apply_snapshot}
use nmos_client.Reconcile.Lists.{IsOrder, reconciled}
use nmos_client.Reconcile.Apply.{apply_snapshot-view}

-- Nothing on both sides, or two streams that are equivalent.
abbrev pub Matches : {T : Type 0} → (T → T → Bool) → Option T → Option T → Type 0
Matches same none none = Unit
Matches same (some a) (some b) = same a b ≡ true
Matches same _ _ = ⊥

-- `==` on the doubles that occur: NaN is left out.
abbrev pub IsEquality : {D : Type 0} → (D → D → Bool) → Type 0
IsEquality {D} double_eq = (x y : D) → (double_eq x y ≡ true) ↔ (x ≡ y)

module _ {D : Type 0} (double_eq : D → D → Bool) (equality : IsEquality double_eq) where
  pub equivalent_audio_receiver_iff :
      (l r : AudioReceiver D) → (equivalent_audio_receiver double_eq l r ≡ true) ↔ (l ≡ r)
  unfolding equivalent_audio_receiver
  equivalent_audio_receiver_iff l r = (
    λ h. ground (
      arith,
      string_iff l.id r.id,
      string_iff l.name r.name,
      same_bool_iff l.enable r.enable,
      eqb_ℤ_iff l.channel_count r.channel_count,
      eqb_ℤ_iff l.bit_depth r.bit_depth,
      eqb_ℤ_iff l.sample_rate r.sample_rate,
      equality l.packet_time r.packet_time,
      string_iff l.ip r.ip,
      string_iff l.source_ip r.source_ip,
      eqb_ℤ_iff l.port r.port,
      equivalent_redudancy_iff l.redudancy r.redudancy,
    ),
    λ h. rw h (self r),
  )
    where
      self : (r : AudioReceiver D) → equivalent_audio_receiver double_eq r r ≡ true
      self r = rw (
        ==-refl r.id,
        ==-refl r.name,
        ==-refl r.enable,
        ==-refl r.channel_count,
        ==-refl r.bit_depth,
        ==-refl r.sample_rate,
        (equality r.packet_time r.packet_time).1 refl,
        ==-refl r.ip,
        ==-refl r.source_ip,
        ==-refl r.port,
        (equivalent_redudancy_iff r.redudancy r.redudancy).1 refl,
      )

  pub equivalent_refl : (k : Kind) (x : StreamOf D k) → equivalent D double_eq k x x ≡ true
  equivalent_refl video_receiver x = (equivalent_video_receiver_iff x x).1 refl
  equivalent_refl audio_receiver x = (equivalent_audio_receiver_iff x x).1 refl
  equivalent_refl ancillary_receiver x = (equivalent_ancillary_receiver_iff x x).1 refl
  equivalent_refl video_sender x = (equivalent_video_sender_iff x x).1 refl
  equivalent_refl audio_sender x = (equivalent_audio_sender_iff x x).1 refl
  equivalent_refl ancillary_sender x = (equivalent_ancillary_sender_iff x x).1 refl

  equivalent_trans :
      (k : Kind) (x y z : StreamOf D k)
      → equivalent D double_eq k x y ≡ true
      → equivalent D double_eq k y z ≡ true
      → equivalent D double_eq k x z ≡ true
  equivalent_trans video_receiver x y z p q = rw ((equivalent_video_receiver_iff x y).0 p) q
  equivalent_trans audio_receiver x y z p q = rw ((equivalent_audio_receiver_iff x y).0 p) q
  equivalent_trans ancillary_receiver x y z p q = rw ((equivalent_ancillary_receiver_iff x y).0 p) q
  equivalent_trans video_sender x y z p q = (equivalent_video_sender_iff x z).1 (
      (equivalent_video_sender_iff x y).0 p
      ∙ ap (λ (w : VideoSender). record w { sender_id = x.sender_id })
          ((equivalent_video_sender_iff y z).0 q))
  equivalent_trans audio_sender x y z p q = (equivalent_audio_sender_iff x z).1 (
      (equivalent_audio_sender_iff x y).0 p
      ∙ ap (λ (w : AudioSender). record w { sender_id = x.sender_id })
          ((equivalent_audio_sender_iff y z).0 q))
  equivalent_trans ancillary_sender x y z p q = (equivalent_ancillary_sender_iff x z).1 (
      (equivalent_ancillary_sender_iff x y).0 p
      ∙ ap (λ (w : AncillarySender). record w { sender_id = x.sender_id })
          ((equivalent_ancillary_sender_iff y z).0 q))

  plain-equivalent : (k : Kind) (x : StreamOf D k) → equivalent D double_eq k (plain D k x) x ≡ true
  plain-equivalent video_receiver x = equivalent_refl video_receiver x
  plain-equivalent audio_receiver x = equivalent_refl audio_receiver x
  plain-equivalent ancillary_receiver x = equivalent_refl ancillary_receiver x
  plain-equivalent video_sender x = (equivalent_video_sender_iff (plain D video_sender x) x).1 refl
  plain-equivalent audio_sender x = (equivalent_audio_sender_iff (plain D audio_sender x) x).1 refl
  plain-equivalent ancillary_sender x =
      (equivalent_ancillary_sender_iff (plain D ancillary_sender x) x).1 refl

  reconciled-Matches :
      (k : Kind) (c n o : Option (StreamOf D k))
      → Matches (equivalent D double_eq k) o c
      → Matches
          (equivalent D double_eq k)
          (reconciled (equivalent D double_eq k) (plain D k) c n o)
          n
  reconciled-Matches k none none none m = tt
  reconciled-Matches k none none (some o) m = elim m [ ]
  reconciled-Matches k (some c) (some n) none m = elim m [ ]
  reconciled-Matches k none (some n) o m = plain-equivalent k n
  reconciled-Matches k (some c) none o m = tt
  reconciled-Matches k (some c) (some n) (some o) m =
      elim (Bool-cases (equivalent D double_eq k c n)) [
        | inl e ↦ rw e (equivalent_trans k o c n m e)
        | inr e ↦ rw e (plain-equivalent k n)
      ]

  -- On a node that keeps its contract, with maps walked once in some order and `==` on doubles an
  -- equality: if under a kind and an id the node held what the current snapshot's map has there,
  -- up to `equivalent`, and `apply_snapshot` returns, it holds there what the next snapshot's map
  -- has, up to `equivalent`.
  pub apply_snapshot-Matches :
      {S : Type 0} (node : NodeOps D S) (arrange : (k : Kind) → Order (StreamOf D k))
      (orders : (k : Kind) → IsOrder (arrange k))
      (view : (k : Kind) → S → String → Option (StreamOf D k)) (runtime : IsRuntime node view)
      (current_snapshot : Option (SnapshotDto D)) (next : SnapshotDto D) (s s' : S)
      → apply_snapshot double_eq node arrange current_snapshot next s ≡ (ok tt, s')
      → (k : Kind) (j : String)
      → Matches
          (equivalent D double_eq k)
          (view k s j)
          (find j (make_map (id_of D k) (streams D k (value_or_empty current_snapshot))))
      → Matches
          (equivalent D double_eq k)
          (view k s' j)
          (find j (make_map (id_of D k) (streams D k next)))
  apply_snapshot-Matches node arrange orders view runtime current_snapshot next s s' h k j m =
      rw
        (apply_snapshot-view double_eq node arrange orders view runtime current_snapshot next s s' h
          k j)
        (reconciled-Matches k
          (find j (make_map (id_of D k) (streams D k (value_or_empty current_snapshot))))
          (find j (make_map (id_of D k) (streams D k next))) (view k s j) m)
