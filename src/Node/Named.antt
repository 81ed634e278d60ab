-- ===== src/Node/Named.antt =====
-- The names of the resources of src/node.cpp: `make_id` tells apart the ids of streams, and each
-- cached sender has the id of its resource.
use nmos_client.Base.{
  String, List, [], ◌∷◌, ◌≡◌, ◌≢◌, refl, sym, ◌∙◌, subst, All, concat, Bool-cases, inl, inr,
}
use text.Mathlib.TextLemmas.{append_cancel_left, append_cancel_right}
use nmos_client.Reconcile.Kind.{
  Kind, StreamOf, id_of, plain, same_kind, same_kind_iff, video_receiver, audio_receiver,
  ancillary_receiver, video_sender, audio_sender, ancillary_sender,
}
use nmos_client.Node.Library.{Library}
use nmos_client.Node.State.{
  Cache, Media, video, audio, ancillary, sender_of, receiver_of, sender_id_of, cached, set_cached,
}
use nmos_client.Node.Resources.{make_id, port_name}
use nmos_client.Node.Methods.{named}
use nmos_client.Node.Cached.{cached-set_cached, seed-set_cached, cached-set_cached_other}

module _ {D : Type 0} (L : Library D) where
  -- The ids that nmos-cpp makes from one seed are those of different texts.
  abbrev pub IsInjective : Type 0
  IsInjective =
      (seed a b : String) → L.make_repeatable_id seed a ≡ L.make_repeatable_id seed b → a ≡ b

  pub make_id-injective :
      IsInjective
      → (seed type : String) (k : Kind) (i j : String)
      → make_id L seed type k i ≡ make_id L seed type k j
      → i ≡ j
  make_id-injective injective seed type k i j h = append_cancel_right i j "" (
      append_cancel_left (port_name k) (concat (i ∷ [])) (concat (j ∷ [])) (
        append_cancel_left "/" (concat (port_name k ∷ i ∷ [])) (concat (port_name k ∷ j ∷ [])) (
          append_cancel_left type (concat ("/" ∷ port_name k ∷ i ∷ []))
            (concat ("/" ∷ port_name k ∷ j ∷ []))
            (append_cancel_left "/x-nmos/node/" (concat (type ∷ "/" ∷ port_name k ∷ i ∷ []))
              (concat (type ∷ "/" ∷ port_name k ∷ j ∷ []))
              (injective seed (concat ("/x-nmos/node/" ∷ type ∷ "/" ∷ port_name k ∷ i ∷ []))
                (concat ("/x-nmos/node/" ∷ type ∷ "/" ∷ port_name k ∷ j ∷ [])) h)))))

  -- A sender has the id of its resource, made from the seed and its own id.
  abbrev pub NamedAt : (k : Kind) → String → StreamOf D k → Type 0
  NamedAt video_sender seed x = x.sender_id ≡ make_id L seed "sender" video_sender x.id
  NamedAt audio_sender seed x = x.sender_id ≡ make_id L seed "sender" audio_sender x.id
  NamedAt ancillary_sender seed x = x.sender_id ≡ make_id L seed "sender" ancillary_sender x.id
  NamedAt video_receiver seed x = Unit
  NamedAt audio_receiver seed x = Unit
  NamedAt ancillary_receiver seed x = Unit

  abbrev pub IsNamed : Cache D → Type 0
  IsNamed c = (k : Kind) → All (NamedAt k c.seed_id) (cached k c)

  pub set_cached-IsNamed :
      (k : Kind) (xs : List (StreamOf D k)) (c : Cache D)
      → IsNamed c
      → All (NamedAt k c.seed_id) xs
      → IsNamed (set_cached k xs c)
  set_cached-IsNamed k xs c h p l = elim (Bool-cases (same_kind k l)) [
    | inl e ↦
        subst (λ l. All (NamedAt l (set_cached k xs c).seed_id) (cached l (set_cached k xs c)))
          ((same_kind_iff k l).0 e) same
    | inr e ↦ other (λ q. cc (sym ((same_kind_iff k l).1 q) ∙ e))
  ]
    where
      same : All (NamedAt k (set_cached k xs c).seed_id) (cached k (set_cached k xs c))
      same = rw (seed-set_cached k xs c, cached-set_cached k xs c) p

      other : k ≢ l → All (NamedAt l (set_cached k xs c).seed_id) (cached l (set_cached k xs c))
      other d = rw (seed-set_cached k xs c, cached-set_cached_other k l xs c d) (h l)

  pub plain-named :
      (k : Media) (seed : String) (x : StreamOf D (sender_of k))
      → plain D (sender_of k) (named L k seed x) ≡ plain D (sender_of k) x
  plain-named video seed x = refl
  plain-named audio seed x = refl
  plain-named ancillary seed x = refl

  pub id-named :
      (k : Media) (seed : String) (x : StreamOf D (sender_of k))
      → id_of D (sender_of k) (named L k seed x) ≡ id_of D (sender_of k) x
  id-named video seed x = refl
  id-named audio seed x = refl
  id-named ancillary seed x = refl

  pub named-NamedAt :
      (k : Media) (seed : String) (x : StreamOf D (sender_of k))
      → NamedAt (sender_of k) seed (named L k seed x)
  named-NamedAt video seed x = refl
  named-NamedAt audio seed x = refl
  named-NamedAt ancillary seed x = refl

  -- What NamedAt says of a sender of any kind.
  pub NamedAt-sender :
      (k : Media) (seed : String) (xs : List (StreamOf D (sender_of k)))
      → All (NamedAt (sender_of k) seed) xs
      → All
          (λ x.
            sender_id_of D k x ≡ make_id L seed "sender" (sender_of k) (id_of D (sender_of k) x))
          xs
  NamedAt-sender video seed xs h = h
  NamedAt-sender audio seed xs h = h
  NamedAt-sender ancillary seed xs h = h

  pub NamedAt-receiver :
      (k : Media) (seed : String) (x : StreamOf D (receiver_of k)) → NamedAt (receiver_of k) seed x
  NamedAt-receiver video seed x = tt
  NamedAt-receiver audio seed x = tt
  NamedAt-receiver ancillary seed x = tt
