-- ===== src/Node/AllRegistered.antt =====
-- The invariant of src/node.cpp that every stream in the lists has its resources in the model, and
-- `add_*`.
use nmos_client.Base.{
  String, Bool, true, false, List, [], ◌∷◌, ◌++◌, Except, ok, err, ◌==◌, string_eq, string_iff, ◌≡◌,
  ◌≢◌, refl, sym, ap, ◌∙◌, subst, All, is_some, Bool-cases, inl, inr,
}
use nmos_client.Base.Exec.{Exec}
use nmos_client.Reconcile.Kind.{Kind, StreamOf, id_of, same_kind, same_kind_iff}
use nmos_client.Node.Library.{Library}
use nmos_client.Node.State.{
  Model, Node, Media, video, audio, ancillary, sender_of, receiver_of, find_by_id, cached,
  set_cached, exists,
}
use nmos_client.Node.Cached.{cached-set_cached, seed-set_cached, cached-set_cached_other, All-push}
use nmos_client.Node.Resources.{make_id}
use nmos_client.Node.Steps.{Store, node_store, connection_store}
use nmos_client.Node.Streams.{register_sender, register_receiver}
use nmos_client.Node.Methods.{committed}
use nmos_client.Node.Ids.{
  Role, source, flow, sender, receiver, role_name, sends, is_sender, make_id-distinct,
}
use nmos_client.Node.Named.{IsInjective}
use nmos_client.Node.Keeps.{Keeps}
use nmos_client.Node.KeepsMethods.{register_sender-Keeps, register_receiver-Keeps}
use nmos_client.Node.RegisteredLaws.{HasSender, HasReceiver}

pub is_sender-sender_of : (k : Media) → is_sender (sender_of k) ≡ true
is_sender-sender_of video = refl
is_sender-sender_of audio = refl
is_sender-sender_of ancillary = refl

pub is_sender-receiver_of : (k : Media) → is_sender (receiver_of k) ≡ false
is_sender-receiver_of video = refl
is_sender-receiver_of audio = refl
is_sender-receiver_of ancillary = refl

module _ {T : Type 0} (id : T → String) (Q : String → Type 0) where
  -- What holds of the id of each of a list holds of an id that is found.
  pub All-find :
      (i : String) (xs : List T)
      → All (λ x. Q (id x)) xs
      → is_some (find_by_id id i xs) ≡ true
      → Q i
  unfolding find_by_id
  All-find i [] h e = absurd (cc e)
  All-find i (x ∷ xs) h e = elim (Bool-cases (id x == i)) [
    | inl q ↦ subst Q ((string_iff (id x) i).0 q) h.0
    | inr q ↦ All-find i xs h.1 (rw q at e)
  ]

  -- Where an id is not found, each of the list has another.
  All-differs :
      (i : String) (xs : List T) → is_some (find_by_id id i xs) ≡ false → All (λ x. i ≢ id x) xs
  unfolding find_by_id
  All-differs i [] e = tt
  All-differs i (x ∷ xs) e = elim (Bool-cases (id x == i)) [
    | inl q ↦ absurd (cc (rw q at e))
    | inr q ↦ (λ p. cc (sym ((string_iff (id x) i).1 (sym p)) ∙ q), All-differs i xs (rw q at e))
  ]

All-both :
    {T : Type 0} (P R Q : T → Type 0) (xs : List T)
    → ((x : T) → P x → R x → Q x)
    → All P xs
    → All R xs
    → All Q xs
All-both P R Q [] f h h' = tt
All-both P R Q (x ∷ xs) f h h' = (f x h.0 h'.0, All-both P R Q xs f h.1 h'.1)

pub All-map :
    {T : Type 0} (P Q : T → Type 0) (xs : List T) → ((x : T) → P x → Q x) → All P xs → All Q xs
All-map P Q [] f h = tt
All-map P Q (x ∷ xs) f h = (f x h.0, All-map P Q xs f h.1)

module _ {D : Type 0} (L : Library D) where
  -- The resources of a sender, or of a receiver.
  abbrev pub HasAs : Bool → Kind → String → String → Model L → Type 0
  HasAs true = HasSender L
  HasAs false = HasReceiver L

  abbrev pub HasResources : Kind → String → String → Model L → Type 0
  HasResources k = HasAs (is_sender k) k

  -- Every stream in the lists has its resources in the model.
  abbrev pub IsRegistered : Node L → Type 0
  IsRegistered n =
      (k : Kind)
      → All (λ x. HasResources k n.cache.seed_id (id_of D k x) n.model) (cached k n.cache)

  -- A step on the model that keeps the resources of a stream.
  abbrev pub KeepsResources : Kind → String → String → Exec (Model L) (Unit {0}) → Type 0
  KeepsResources l seed j f =
      (m : Model L) → HasResources l seed j m → HasResources l seed j (f m).1

  pub kept-KeepsResources :
      (l : Kind) (seed j : String) (f : Exec (Model L) (Unit {0}))
      → ((st : Store) (t : Role)
          → sends t ≡ is_sender l
          → Keeps L st (make_id L seed (role_name t) l j) f)
      → KeepsResources l seed j f
  kept-KeepsResources l seed j f keeps m h = go (is_sender l) refl h
    where
      go : (b : Bool) → is_sender l ≡ b → HasAs b l seed j m → HasAs b l seed j (f m).1
      go true e (p, q, r, s) = (
        (keeps node_store source (sym e)).kept m p,
        (keeps node_store flow (sym e)).kept m q,
        (keeps node_store sender (sym e)).kept m r,
        (keeps connection_store sender (sym e)).kept m s,
      )
      go false e (p, q) = (
        (keeps node_store receiver (sym e)).kept m p,
        (keeps connection_store receiver (sym e)).kept m q,
      )

  module _ (injective : IsInjective L) where
    -- Registering a stream keeps the resources of every other.
    pub register_sender-KeepsResources :
        (k : Media) (seed : String) (x : StreamOf D (sender_of k)) (l : Kind) (j : String)
        → (sender_of k ≡ l → id_of D (sender_of k) x ≢ j)
        → KeepsResources l seed j (register_sender L k seed x)
    register_sender-KeepsResources k seed x l j d =
        kept-KeepsResources l seed j (register_sender L k seed x) (λ st t e.
          let spare : (r : Role)
              → sends r ≡ true
              → make_id L seed (role_name r) (sender_of k) (id_of D (sender_of k) x)
                ≢ make_id L seed (role_name t) l j =
            λ r q h.
              let (p, p') =
                make_id-distinct L injective seed r t (sender_of k) l (id_of D (sender_of k) x) j
                  (q ∙ sym (is_sender-sender_of k)) e h in
              d p p' in
          register_sender-Keeps L st (make_id L seed (role_name t) l j) k seed x (
            λ _. spare source refl,
            λ _. spare flow refl,
            λ _. spare sender refl,
            λ _. spare sender refl,
          ))

    pub register_receiver-KeepsResources :
        (k : Media) (seed : String) (x : StreamOf D (receiver_of k)) (l : Kind) (j : String)
        → (receiver_of k ≡ l → id_of D (receiver_of k) x ≢ j)
        → KeepsResources l seed j (register_receiver L k seed x)
    register_receiver-KeepsResources k seed x l j d =
        kept-KeepsResources l seed j (register_receiver L k seed x) (λ st t e.
          let spare : make_id L seed (role_name receiver) (receiver_of k)
                (id_of D (receiver_of k) x)
              ≢ make_id L seed (role_name t) l j =
            λ h.
              let (p, p') =
                make_id-distinct L injective seed receiver t (receiver_of k) l
                  (id_of D (receiver_of k) x) j (sym (is_sender-receiver_of k)) e h in
              d p p' in
          register_receiver-Keeps L st (make_id L seed (role_name t) l j) k seed x
            (λ _. spare, λ _. spare))

    -- A method that puts a stream which was not there at the end of its list.
    pub pushed-IsRegistered :
        (k : Kind) (y : StreamOf D k) (n : Node L) (f : Exec (Model L) (Unit {0}))
        → IsRegistered n
        → exists k (id_of D k y) n.cache ≡ false
        → ((l : Kind) (j : String)
            → (k ≡ l → id_of D k y ≢ j)
            → KeepsResources l n.cache.seed_id j f)
        → ((m m' : Model L) → f m ≡ (ok tt, m') → HasResources k n.cache.seed_id (id_of D k y) m')
        → IsRegistered
            (committed L (λ c. set_cached k (cached k c ++ (y ∷ [])) c) n.cache (f n.model)).1
    unfolding find_by_id
    pushed-IsRegistered k y n f h absent keeps has = go (f n.model) refl
      where
        same :
            All (λ x. HasResources k n.cache.seed_id (id_of D k x) (f n.model).1) (cached k n.cache)
        same =
            All-both (λ x. HasResources k n.cache.seed_id (id_of D k x) n.model)
              (λ x. id_of D k y ≢ id_of D k x)
              (λ x. HasResources k n.cache.seed_id (id_of D k x) (f n.model).1) (cached k n.cache)
              (λ x q d. keeps k (id_of D k x) (λ e. d) n.model q) (h k)
              (All-differs (id_of D k) (λ i. Unit {0}) (id_of D k y) (cached k n.cache) absent)

        other :
            (l : Kind)
            → k ≢ l
            → All
                (λ x. HasResources l n.cache.seed_id (id_of D l x) (f n.model).1)
                (cached l n.cache)
        other l d =
            All-map (λ x. HasResources l n.cache.seed_id (id_of D l x) n.model)
              (λ x. HasResources l n.cache.seed_id (id_of D l x) (f n.model).1) (cached l n.cache)
              (λ x q. keeps l (id_of D l x) (λ e. absurd (d e)) n.model q) (h l)

        kept :
            (l : Kind)
            → All
                (λ x. HasResources l n.cache.seed_id (id_of D l x) (f n.model).1)
                (cached l n.cache)
        kept l = elim (Bool-cases (same_kind k l)) [
          | inl e ↦
              subst
                (λ l.
                  All (λ x. HasResources l n.cache.seed_id (id_of D l x) (f n.model).1)
                    (cached l n.cache))
                ((same_kind_iff k l).0 e) same
          | inr e ↦ other l (λ q. cc (sym ((same_kind_iff k l).1 q) ∙ e))
        ]

        xs : List (StreamOf D k)
        xs = cached k n.cache ++ (y ∷ [])

        pushed :
            (m : Model L)
            → f n.model ≡ (ok tt, m)
            → (l : Kind)
            → All
                (λ x. HasResources l (set_cached k xs n.cache).seed_id (id_of D l x) m)
                (cached l (set_cached k xs n.cache))
        pushed m e l = elim (Bool-cases (same_kind k l)) [
          | inl q ↦
              subst
                (λ l.
                  All (λ x. HasResources l (set_cached k xs n.cache).seed_id (id_of D l x) m)
                    (cached l (set_cached k xs n.cache)))
                ((same_kind_iff k l).0 q)
                (rw (seed-set_cached k xs n.cache, cached-set_cached k xs n.cache)
                  (All-push (λ x. HasResources k n.cache.seed_id (id_of D k x) m) y
                    (cached k n.cache) (has n.model m e) (at_model m e k)))
          | inr q ↦
              rw
                (
                  seed-set_cached k xs n.cache,
                  cached-set_cached_other k l xs n.cache
                      (λ p. cc (sym ((same_kind_iff k l).1 p) ∙ q)),
                )
                (at_model m e l)
        ]
          where
            at_model :
                (m : Model L)
                → f n.model ≡ (ok tt, m)
                → (l : Kind)
                → All (λ x. HasResources l n.cache.seed_id (id_of D l x) m) (cached l n.cache)
            at_model m e l =
                subst
                  (λ m.
                    All (λ x. HasResources l n.cache.seed_id (id_of D l x) m) (cached l n.cache))
                  (ap (λ (r : Except (Unit {0}) × Model L). r.1) e) (kept l)

        go :
            (r : Except (Unit {0}) × Model L)
            → f n.model ≡ r
            → IsRegistered (committed L (λ c. set_cached k (cached k c ++ (y ∷ [])) c) n.cache r).1
        go (ok u, m) e l = pushed m e l
        go (err x, m) e l =
            subst
              (λ m. All (λ x. HasResources l n.cache.seed_id (id_of D l x) m) (cached l n.cache))
              (ap (λ (r : Except (Unit {0}) × Model L). r.1) e) (kept l)
