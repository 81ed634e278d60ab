-- ===== src/Node/Registered.antt =====
-- Adding a sender or a receiver to the model of src/node.cpp: where it returns, the resources of the
-- stream are there, and those of other streams are kept whether or not it throws.
use nmos_client.Base.{
  concat, String, Bool, true, false, [], ◌∷◌, Except, ok, err, ◌==◌, string_eq, if◌then◌else◌, ◌≡◌,
  refl, ap, Bool-cases, inl, inr, subst, ◌||◌, ltb_ℤ, leb_ℤ, pos, >>=-eq-ok, some, none,
}
use nmos_client.Base.Exec.{Exec, pure, ◌>>=◌, ◌>>◌}
use nmos_client.Format.Desc.{is_invalid}
use nmos_client.Format.Lookup.{get_by_name}
use nmos_client.Reconcile.Kind.{
  Kind, StreamOf, id_of, video_sender, audio_sender, ancillary_sender, video_receiver,
  audio_receiver, ancillary_receiver,
}
use nmos_client.Node.Library.{Library}
use nmos_client.Node.State.{Model, Media, video, audio, ancillary, sender_of, receiver_of}
use nmos_client.Node.Resources.{
  int_to_string, SenderResources, ReceiverResources, make_id, sender_resources, receiver_resources,
  caught, cap_formats, make_video_sender_resources, make_audio_sender_resources,
  make_ancillary_sender_resources, make_video_receiver_resources, make_audio_receiver_resources,
  make_ancillary_receiver_resources,
}
use nmos_client.Node.Steps.{Store, insert_resource_after, set_device, throw}
use nmos_client.Node.Streams.{
  make_sender_resources, make_receiver_resources, made, require_else, push_sender_ids,
  push_receiver_id,
}
use nmos_client.Node.Keeps.{Has, pure-Keeps, insert-Keeps, same-Has, change-Has}
use nmos_client.Node.Yields.{
  Preserves, Keeps-Preserves, Throws-Preserves, >>=-Preserves, Throws, undo-Throws, then-Throws,
  Yields, later-Yields, insert-Yields,
}

module _ {D : Type 0} (L : Library D) where
  -- The resources of a sender have the ids made for it.
  abbrev pub SenderIds : (k : Kind) → String → String → SenderResources L → Type 0
  SenderIds k seed i r =
      (L.resource_id r.source ≡ make_id L seed "source" k i)
      × (L.resource_id r.flow ≡ make_id L seed "flow" k i)
      × (L.resource_id r.sender ≡ make_id L seed "sender" k i)
      × (L.resource_id r.connection_sender ≡ make_id L seed "sender" k i)

  abbrev pub ReceiverIds : (k : Kind) → String → String → ReceiverResources L → Type 0
  ReceiverIds k seed i r =
      (L.resource_id r.receiver ≡ make_id L seed "receiver" k i)
      × (L.resource_id r.connection_receiver ≡ make_id L seed "receiver" k i)

  pub make_sender_resources-SenderIds :
      (k : Media) (seed : String) (x : StreamOf D (sender_of k)) (m : Model L)
      (r : SenderResources L)
      → make_sender_resources L k seed x m ≡ ok r
      → SenderIds (sender_of k) seed (id_of D (sender_of k) x) r
  unfolding make_video_sender_resources make_audio_sender_resources make_ancillary_sender_resources
  make_sender_resources-SenderIds video seed x m r h =
      let (d, e, rest) =
        >>=-eq-ok (get_by_name x.video_format)
          (λ d.
            if is_invalid d
            then err (concat ("invalid video sender video_format: " ∷ x.video_format ∷ []))
            else if ltb_ℤ x.pg_format (pos 0) || leb_ℤ L.st20_fmt_max x.pg_format
            then err (concat ("invalid video sender pg_format: " ∷ int_to_string x.pg_format ∷ []))
            else ok (sender_resources L video_sender seed (some d) x m))
          h in
      elim (Bool-cases (is_invalid d)) [
        | inl q ↦ absurd (cc (rw q at rest))
        | inr q ↦
            elim (Bool-cases (ltb_ℤ x.pg_format (pos 0) || leb_ℤ L.st20_fmt_max x.pg_format)) [
              | inl p ↦ absurd (cc (rw (q, p) at rest))
              | inr p ↦
                  let same : sender_resources L video_sender seed (some d) x m ≡ r =
                    cc (rw (q, p) at rest) in
                  subst (SenderIds video_sender seed x.id) same (
                    L.id-source _ _ _ _ _,
                    L.id-flow _ _ _ _ _ _,
                    L.id-sender _ _ _ _ _ _,
                    L.id-connection_sender _ _ _ _ _ _,
                  )
            ]
      ]
  make_sender_resources-SenderIds audio seed x m r h =
      let same : sender_resources L audio_sender seed none x m ≡ r = cc h in
      subst (SenderIds audio_sender seed x.id) same (
        L.id-source _ _ _ _ _,
        L.id-flow _ _ _ _ _ _,
        L.id-sender _ _ _ _ _ _,
        L.id-connection_sender _ _ _ _ _ _,
      )
  make_sender_resources-SenderIds ancillary seed x m r h =
      let same : sender_resources L ancillary_sender seed
            (if x.format == "" then none else caught L (get_by_name x.format)) x m
          ≡ r =
        cc h in
      subst (SenderIds ancillary_sender seed x.id) same (
        L.id-source _ _ _ _ _,
        L.id-flow _ _ _ _ _ _,
        L.id-sender _ _ _ _ _ _,
        L.id-connection_sender _ _ _ _ _ _,
      )

  pub make_receiver_resources-ReceiverIds :
      (k : Media) (seed : String) (x : StreamOf D (receiver_of k)) (m : Model L)
      (r : ReceiverResources L)
      → make_receiver_resources L k seed x m ≡ ok r
      → ReceiverIds (receiver_of k) seed (id_of D (receiver_of k) x) r
  unfolding make_video_receiver_resources make_audio_receiver_resources
      make_ancillary_receiver_resources receiver_resources
  make_receiver_resources-ReceiverIds video seed x m r h =
      let (ds, e, rest) =
        >>=-eq-ok (cap_formats L x.caps.formats)
          (λ ds. ok (receiver_resources L video_receiver seed ds x m)) h in
      let same : receiver_resources L video_receiver seed ds x m ≡ r = cc rest in
      subst (ReceiverIds video_receiver seed x.id) same
        (L.id-receiver _ _ _ _ _ _, L.id-connection_receiver _ _ _ _ _)
  make_receiver_resources-ReceiverIds audio seed x m r h =
      let same : receiver_resources L audio_receiver seed [] x m ≡ r = cc h in
      subst (ReceiverIds audio_receiver seed x.id) same
        (L.id-receiver _ _ _ _ _ _, L.id-connection_receiver _ _ _ _ _)
  make_receiver_resources-ReceiverIds ancillary seed x m r h =
      let same : receiver_resources L ancillary_receiver seed [] x m ≡ r = cc h in
      subst (ReceiverIds ancillary_receiver seed x.id) same
        (L.id-receiver _ _ _ _ _ _, L.id-connection_receiver _ _ _ _ _)

  -- `require_else` either goes on or throws.
  pub false-Throws :
      (undo : Exec (Model L) (Unit {0})) (e : String) → Throws L (require_else L false undo e)
  false-Throws undo e = undo-Throws L undo e

  module _ (st : Store) (j : String) where
    pub require_else-Preserves :
        (b : Bool) (undo : Exec (Model L) (Unit {0})) (e : String)
        → Preserves L st j (require_else L b undo e)
    require_else-Preserves true undo e = Keeps-Preserves L st j (pure tt) (pure-Keeps L st j tt)
    require_else-Preserves false undo e =
        Throws-Preserves L st j (undo >> throw L e) (undo-Throws L undo e)

    -- An insertion that must succeed, and what follows it.
    pub guarded-Preserves :
        (at : Store) (x : L.Resource) (undo : Exec (Model L) (Unit {0})) (e : String)
        (rest : Exec (Model L) (Unit {0}))
        → Preserves L st j rest
        → Preserves L st j (insert_resource_after L at x >>= λ b. require_else L b undo e >> rest)
    guarded-Preserves at x undo e rest k =
        >>=-Preserves L st j (insert_resource_after L at x) (λ b. require_else L b undo e >> rest)
          (Keeps-Preserves L st j (insert_resource_after L at x) (insert-Keeps L st j at x))
          (λ b.
            >>=-Preserves L st j (require_else L b undo e) (λ _. rest)
              (require_else-Preserves b undo e) (λ _. k))

    pub guarded-Yields :
        (x : L.Resource) (undo : Exec (Model L) (Unit {0})) (e : String)
        (rest : Exec (Model L) (Unit {0}))
        → L.resource_id x ≡ j
        → Preserves L st j rest
        → Yields L st j (insert_resource_after L st x >>= λ b. require_else L b undo e >> rest)
    guarded-Yields x undo e rest i k =
        insert-Yields L st j x (λ b. require_else L b undo e >> rest) i
          (>>=-Preserves L st j (require_else L true undo e) (λ _. rest)
            (require_else-Preserves true undo e) (λ _. k))
          (then-Throws L (require_else L false undo e) rest (false-Throws undo e))

    pub guarded-later :
        (at : Store) (x : L.Resource) (undo : Exec (Model L) (Unit {0})) (e : String)
        (rest : Exec (Model L) (Unit {0}))
        → Yields L st j rest
        → Yields L st j (insert_resource_after L at x >>= λ b. require_else L b undo e >> rest)
    guarded-later at x undo e rest y =
        later-Yields L st j (insert_resource_after L at x) (λ b. require_else L b undo e >> rest)
          (λ b. later-Yields L st j (require_else L b undo e) (λ _. rest) (λ _. y))

    pub made-Yields :
        {A : Type 0} (f : Model L → Except A) (g : A → Exec (Model L) (Unit {0}))
        → ((m : Model L) (a : A) → f m ≡ ok a → Yields L st j (g a))
        → Yields L st j (made L f >>= g)
    made-Yields {A} f g y = record { yields = λ m m' u h. go m m' u (f m) refl h }
      where
        go :
            (m m' : Model L) (u : Unit {0}) (r : Except A)
            → f m ≡ r
            → ◌>>=◌ {A = A} {B = Unit {0}} (λ (s : Model L). (r, s)) g m ≡ (ok u, m')
            → Has L st j m'
        go m m' u (ok a) q h = (y m a q).yields m m' u h
        go m m' u (err e) q h = absurd (cc (ap (λ (p : Except (Unit {0}) × Model L). p.0) h))

    pub push_receiver_id-Preserves :
        (r : ReceiverResources L) → Preserves L st j (push_receiver_id L r)
    unfolding set_device
    push_receiver_id-Preserves r = Keeps-Preserves L st j (push_receiver_id L r) (record {
      kept = λ m h. change-Has L st j m.device_id _ _ (same-Has L st j m _ refl refl h);
    })

    pub push_sender_ids-Preserves : (r : SenderResources L) → Preserves L st j (push_sender_ids L r)
    unfolding set_device
    push_sender_ids-Preserves r = Keeps-Preserves L st j (push_sender_ids L r) (record {
      kept = λ m h. change-Has L st j m.device_id _ _ (same-Has L st j m _ refl refl h);
    })
