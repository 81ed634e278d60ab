-- ===== src/Node/MethodEffects.antt =====
-- What the methods of src/node.cpp that add, update and remove a stream do to the cached streams.
use nmos_client.Base.{
  String, Bool, true, false, not, [], ◌∷◌, ◌++◌, Option, none, some, Except, ok, ◌≡◌, refl, sym, ap,
  ◌==◌, string_eq, string_iff, if◌then◌else◌, or_else, is_some, Bool-cases, inl, inr, subst,
}
use nmos_client.Reconcile.Kind.{Kind, StreamOf, id_of, plain}
use nmos_client.Reconcile.InStep.{map_option}
use nmos_client.Node.Library.{Library}
use nmos_client.Node.State.{
  Cache, Model, Node, Media, sender_of, receiver_of, sender_id_of, find_by_id, replace_cached_by_id,
  remove_by, cached, set_cached, exists,
}
use nmos_client.Node.Resources.{make_id}
use nmos_client.Node.Methods.{
  committed, push, put_back, named as named_sender, drop_sender, drop_receiver, add_sender,
  add_receiver, update_sender, update_receiver, remove_sender, remove_receiver,
}
use nmos_client.Node.Cached.{
  find-push, find-replace, find-remove, remove_by-named, All-push, All-replace, All-remove,
}
use nmos_client.Node.Named.{
  IsInjective, make_id-injective, NamedAt, IsNamed, plain-named, id-named, named-NamedAt,
  NamedAt-sender, NamedAt-receiver,
}
use nmos_client.Node.Effect.{held_in, Effect, committed-Effect, unchanged-Effect}

-- The three look-ups, with the streams read without their sender ids.
module _ {T : Type 0} (f : T → T) where
  pushed :
      (o : Option T) (b : Bool) (x y : T)
      → (b ≡ true → is_some o ≡ false)
      → f y ≡ f x
      → map_option f (or_else o (if b then some y else none))
        ≡ (if b then some (f x) else map_option f o)
  pushed none true x y h e = ap some e
  pushed none false x y h e = refl
  pushed (some z) true x y h e = absurd (cc (h refl))
  pushed (some z) false x y h e = refl

  put :
      (o : Option T) (b : Bool) (x y : T)
      → f y ≡ f x
      → map_option f (if b then some y else o) ≡ (if b then some (f x) else map_option f o)
  put o true x y e = ap some e
  put o false x y e = refl

  taken :
      (o : Option T) (b : Bool)
      → map_option f (if b then none else o) ≡ (if b then none else map_option f o)
  taken o true = refl
  taken o false = refl

  untaken :
      (o : Option T) (b : Bool)
      → (b ≡ true → is_some o ≡ false)
      → map_option f o ≡ (if b then none else map_option f o)
  untaken none true h = refl
  untaken (some z) true h = absurd (cc (h refl))
  untaken o false h = refl

if-not : {A : Type 0} (b : Bool) (x y : A) → (if not b then x else y) ≡ (if b then y else x)
if-not true x y = refl
if-not false x y = refl

module _ {D : Type 0} (L : Library D) where
  module _ (k : Kind) (x y : StreamOf D k) (n : Node L) (named : IsNamed L n.cache)
      (same_id : id_of D k y ≡ id_of D k x) (same : plain D k y ≡ plain D k x)
      (y-NamedAt : NamedAt L k n.cache.seed_id y) where
    push_view :
        exists k (id_of D k x) n.cache ≡ false
        → (j : String)
        → map_option (plain D k) (find_by_id (id_of D k) j (cached k n.cache ++ (y ∷ [])))
          ≡ (if id_of D k x == j then some (plain D k x) else held_in L k n.cache j)
    unfolding find_by_id
    push_view absent j =
        rw (find-push (id_of D k) y (cached k n.cache) j, same_id)
          (pushed (plain D k) (find_by_id (id_of D k) j (cached k n.cache)) (id_of D k x == j) x y
            (λ e. subst (λ i. exists k i n.cache ≡ false) ((string_iff (id_of D k x) j).0 e) absent)
            same)

    put_view :
        exists k (id_of D k x) n.cache ≡ true
        → (j : String)
        → map_option
            (plain D k)
            (find_by_id (id_of D k) j (replace_cached_by_id (id_of D k) y (cached k n.cache)))
          ≡ (if id_of D k x == j then some (plain D k x) else held_in L k n.cache j)
    unfolding find_by_id replace_cached_by_id
    put_view present j =
        rw
          (
            find-replace (id_of D k) y (cached k n.cache) j
                (subst (λ i. exists k i n.cache ≡ true) (sym same_id) present),
            same_id,
          )
          (put (plain D k) (find_by_id (id_of D k) j (cached k n.cache)) (id_of D k x == j) x y
            same)

    pub push-Effect :
        (r : Except (Unit {0}) × Model L)
        → exists k (id_of D k x) n.cache ≡ false
        → Effect L k (id_of D k x) (some (plain D k x)) n (committed L (push L k y) n.cache r)
    unfolding find_by_id
    push-Effect r absent =
        committed-Effect L k (id_of D k x) (some (plain D k x)) n named
          (cached k n.cache ++ (y ∷ [])) (push L k y) r refl
          (All-push (NamedAt L k n.cache.seed_id) y (cached k n.cache) y-NamedAt (named k))
          (push_view absent)

    pub put_back-Effect :
        (r : Except (Unit {0}) × Model L)
        → exists k (id_of D k x) n.cache ≡ true
        → Effect L k (id_of D k x) (some (plain D k x)) n (committed L (put_back L k y) n.cache r)
    unfolding find_by_id replace_cached_by_id
    put_back-Effect r present =
        committed-Effect L k (id_of D k x) (some (plain D k x)) n named
          (replace_cached_by_id (id_of D k) y (cached k n.cache)) (put_back L k y) r refl
          (All-replace (NamedAt L k n.cache.seed_id) (id_of D k) y (cached k n.cache) y-NamedAt
            (named k))
          (put_view present)

    -- The choice between the two.
    pub kept-Effect :
        (r r' : Except (Unit {0}) × Model L)
        → Effect L k (id_of D k x) (some (plain D k x)) n (
            if exists k (id_of D k x) n.cache
            then committed L (put_back L k y) n.cache r
            else committed L (push L k y) n.cache r')
    unfolding find_by_id replace_cached_by_id
    kept-Effect r r' = elim (Bool-cases (exists k (id_of D k x) n.cache)) [
      | inl e ↦ rw e (put_back-Effect r e)
      | inr e ↦ rw e (push-Effect r' e)
    ]

  module _ (n : Node L) (named : IsNamed L n.cache) where
    pub add_sender-Effect :
        (k : Media) (x : StreamOf D (sender_of k))
        → Effect L
            (sender_of k)
            (id_of D (sender_of k) x)
            (some (plain D (sender_of k) x))
            n
            (add_sender L k x n)
    unfolding add_sender find_by_id replace_cached_by_id
    add_sender-Effect k x =
        kept-Effect (sender_of k) x (named_sender L k n.cache.seed_id x) n named
          (id-named L k n.cache.seed_id x) (plain-named L k n.cache.seed_id x)
          (named-NamedAt L k n.cache.seed_id x) _ _

    pub update_sender-Effect :
        (k : Media) (x : StreamOf D (sender_of k))
        → Effect L
            (sender_of k)
            (id_of D (sender_of k) x)
            (some (plain D (sender_of k) x))
            n
            (update_sender L k x n)
    unfolding update_sender find_by_id replace_cached_by_id
    update_sender-Effect k x =
        rw (if-not (exists (sender_of k) (id_of D (sender_of k) x) n.cache) _ _) (
          kept-Effect (sender_of k) x (named_sender L k n.cache.seed_id x) n named
            (id-named L k n.cache.seed_id x) (plain-named L k n.cache.seed_id x)
            (named-NamedAt L k n.cache.seed_id x) _ _)

    pub add_receiver-Effect :
        (k : Media) (x : StreamOf D (receiver_of k))
        → Effect L
            (receiver_of k)
            (id_of D (receiver_of k) x)
            (some (plain D (receiver_of k) x))
            n
            (add_receiver L k x n)
    unfolding add_receiver find_by_id replace_cached_by_id
    add_receiver-Effect k x =
        kept-Effect (receiver_of k) x x n named refl refl (NamedAt-receiver L k n.cache.seed_id x) _
          _

    pub update_receiver-Effect :
        (k : Media) (x : StreamOf D (receiver_of k))
        → Effect L
            (receiver_of k)
            (id_of D (receiver_of k) x)
            (some (plain D (receiver_of k) x))
            n
            (update_receiver L k x n)
    unfolding update_receiver find_by_id replace_cached_by_id
    update_receiver-Effect k x =
        rw (if-not (exists (receiver_of k) (id_of D (receiver_of k) x) n.cache) _ _) (
          kept-Effect (receiver_of k) x x n named refl refl (NamedAt-receiver L k n.cache.seed_id x)
            _ _)

    -- Where the stream is not there, nothing is to be removed.
    absent-Effect :
        (k : Kind) (i : String) → exists k i n.cache ≡ false → Effect L k i none n (ok tt, n)
    unfolding find_by_id
    absent-Effect k i absent = unchanged-Effect L k i none n named (λ j.
        untaken (plain D k) (find_by_id (id_of D k) j (cached k n.cache)) (i == j)
          (λ e. subst (λ i. exists k i n.cache ≡ false) ((string_iff i j).0 e) absent))

    removed-Effect :
        (k : Kind) (i : String) (f : Cache D → Cache D) (r : Except (Unit {0}) × Model L)
        → f n.cache ≡ set_cached k (remove_by (id_of D k) i (cached k n.cache)) n.cache
        → Effect L k i none n
            (if not (exists k i n.cache) then (ok tt, n) else committed L f n.cache r)
    unfolding find_by_id remove_by
    removed-Effect k i f r e = elim (Bool-cases (exists k i n.cache)) [
      | inl p ↦ rw p (
          committed-Effect L k i none n named (remove_by (id_of D k) i (cached k n.cache)) f r e
            (All-remove (NamedAt L k n.cache.seed_id) (id_of D k) i (cached k n.cache) (named k))
            (λ j.
              rw (find-remove (id_of D k) i (cached k n.cache) j)
                (taken (plain D k) (find_by_id (id_of D k) j (cached k n.cache)) (i == j))))
      | inr p ↦ rw p (absent-Effect k i p)
    ]

    pub remove_receiver-Effect :
        (k : Media) (i : String) → Effect L (receiver_of k) i none n (remove_receiver L k i n)
    unfolding remove_receiver find_by_id remove_by
    remove_receiver-Effect k i = removed-Effect (receiver_of k) i (drop_receiver L k i) _ refl

    pub remove_sender-Effect :
        IsInjective L
        → (k : Media) (i : String) → Effect L (sender_of k) i none n (remove_sender L k i n)
    unfolding remove_sender find_by_id remove_by
    remove_sender-Effect injective k i =
        removed-Effect (sender_of k) i
          (drop_sender L k (make_id L n.cache.seed_id "sender" (sender_of k) i)) _
          (ap (λ xs. set_cached (sender_of k) xs n.cache)
            (remove_by-named (id_of D (sender_of k)) (sender_id_of D k)
              (make_id L n.cache.seed_id "sender" (sender_of k))
              (make_id-injective L injective n.cache.seed_id "sender" (sender_of k)) i
              (cached (sender_of k) n.cache)
              (NamedAt-sender L k n.cache.seed_id (cached (sender_of k) n.cache)
                (named (sender_of k)))))
