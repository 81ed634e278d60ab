-- ===== src/Node/Keeps.antt =====
-- The steps on the model of src/node.cpp that keep a resource: all but the erasure of its id.
use nmos_client.Base.{
  ◌&&◌, concat, String, Bool, true, false, List, [], ◌∷◌, Option, some, is_some, Except, ok, err,
  ◌==◌, string_eq, if◌then◌else◌, ◌≡◌, ◌≢◌, refl, ◌∙◌, Bool-cases, inl, inr, not-==,
}
use nmos_client.Base.Exec.{Exec, pure, ◌>>=◌, ◌>>◌, for_each}
use nmos_client.Node.Library.{Library}
use nmos_client.Node.State.{Model}
use nmos_client.Node.Resources.{SenderResources, ReceiverResources}
use nmos_client.Node.Steps.{
  renewed_connection, with_transportfile, Store, node_store, connection_store, stored,
  insert_resource_after, remove_resource_after, erase_resource_if_present, replace_node_resource,
  modify_connection, require, set_device, shutdown_seen, after_wait, store_in,
  replace_sender_resources, replace_receiver_resources,
}

module _ {D : Type 0} (L : Library D) (st : Store) (j : String) where
  -- The model has a resource under the id.
  abbrev pub Has : Model L → Type 0
  Has m = is_some (L.find_resource (stored L st m) j) ≡ true

  -- A step after which the resource is there still, whether or not the step throws.
  pub record Keeps {A : Type 0} (f : Exec (Model L) A) : Type 0 where
    pub kept : (m : Model L) → Has m → Has (f m).1

  pub pure-Keeps : {A : Type 0} (a : A) → Keeps (pure a)
  pure-Keeps a = record { kept = λ m h. h }

  pub >>=-Keeps :
      {A B : Type 0} (f : Exec (Model L) A) (g : A → Exec (Model L) B)
      → Keeps f
      → ((a : A) → Keeps (g a))
      → Keeps (f >>= g)
  >>=-Keeps {A} {B} f g kf kg = record { kept = λ m h. go m (f m) (kf.kept m h) }
    where
      go :
          (m : Model L) (r : Except A × Model L)
          → Has r.1
          → Has ((◌>>=◌ {A = A} {B = B} (λ (s : Model L). r) g) m).1
      go m (ok a, t) h' = (kg a).kept t h'
      go m (err e, t) h' = h'

  pub >>-Keeps :
      {A B : Type 0} (f : Exec (Model L) A) (g : Exec (Model L) B)
      → Keeps f
      → Keeps g
      → Keeps (f >> g)
  >>-Keeps f g kf kg = >>=-Keeps f (λ _. g) kf (λ _. kg)

  pub for_each-Keeps :
      {A : Type 0} (f : A → Exec (Model L) (Unit {0})) (xs : List A)
      → ((x : A) → Keeps (f x))
      → Keeps (for_each f xs)
  for_each-Keeps f [] k = pure-Keeps tt
  for_each-Keeps f (x ∷ xs) k = >>-Keeps (f x) (for_each f xs) (k x) (for_each-Keeps f xs k)

  some_either :
      (b c : Bool) (x : L.Resource) (o p : Option L.Resource)
      → p ≡ (if b then (if c then some x else o) else o)
      → is_some o ≡ true
      → is_some p ≡ true
  some_either true true x o p e h = rw e refl
  some_either true false x o p e h = rw e h
  some_either false c x o p e h = rw e h

  pub insert-Keeps : (at : Store) (x : L.Resource) → Keeps (insert_resource_after L at x)
  unfolding insert_resource_after
  insert-Keeps at x = record {
    kept = λ m h. elim (Bool-cases (shutdown_seen L m.waits)) [
      | inl e ↦ rw e (waited m st h)
      | inr e ↦ rw e (put m st at h)
    ];
  }
    where
      waited :
          (m : Model L) (st : Store)
          → is_some (L.find_resource (stored L st m) j) ≡ true
          → is_some (L.find_resource (stored L st (after_wait L m)) j) ≡ true
      waited m node_store h = h
      waited m connection_store h = h

      put :
          (m : Model L) (st at : Store)
          → is_some (L.find_resource (stored L st m) j) ≡ true
          → is_some (
              L.find_resource
                (stored L st
                  (store_in L at (L.insert_resource (stored L at m) x).1 (after_wait L m)))
                j)
            ≡ true
      put m node_store node_store h =
          some_either (L.insert_resource m.node_resources x).0 (L.resource_id x == j) x _ _
            (L.find-insert m.node_resources x j) h
      put m connection_store connection_store h =
          some_either (L.insert_resource m.connection_resources x).0 (L.resource_id x == j) x _ _
            (L.find-insert m.connection_resources x j) h
      put m node_store connection_store h = h
      put m connection_store node_store h = h

  -- An erasure of an id keeps it in the other store, and another id.
  abbrev pub Spares : Store → String → Type 0
  Spares at i = at ≡ st → i ≢ j

  erased-Has :
      (at : Store) (i : String) (m m' : Model L)
      → m'.node_resources ≡ m.node_resources
      → m'.connection_resources ≡ m.connection_resources
      → Spares at i
      → Has m
      → Has (store_in L at (L.erase_resource (stored L at m) i).1 m')
  erased-Has at i m m' p q s h = go st at s h
    where
      go :
          (st at : Store)
          → (at ≡ st → i ≢ j)
          → is_some (L.find_resource (stored L st m) j) ≡ true
          → is_some (
              L.find_resource
                (stored L st (store_in L at (L.erase_resource (stored L at m) i).1 m'))
                j)
            ≡ true
      go node_store node_store s h = rw (L.find-erase m.node_resources i j, not-== i j (s refl)) h
      go connection_store connection_store s h =
          rw (L.find-erase m.connection_resources i j, not-== i j (s refl)) h
      go node_store connection_store s h = rw p h
      go connection_store node_store s h = rw q h

  pub erase-Keeps :
      (at : Store) (i : String) → Spares at i → Keeps (erase_resource_if_present L at i)
  unfolding erase_resource_if_present
  erase-Keeps at i s = record { kept = λ m h. erased-Has at i m m refl refl s h }

  -- Only the containers count.
  pub same-Has :
      (m m' : Model L)
      → m'.node_resources ≡ m.node_resources
      → m'.connection_resources ≡ m.connection_resources
      → Has m
      → Has m'
  same-Has m m' p q h = go st h
    where
      go :
          (st : Store)
          → is_some (L.find_resource (stored L st m) j) ≡ true
          → is_some (L.find_resource (stored L st m') j) ≡ true
      go node_store h = rw p h
      go connection_store h = rw q h

  pub remove-Keeps : (at : Store) (i : String) → Spares at i → Keeps (remove_resource_after L at i)
  unfolding remove_resource_after
  remove-Keeps at i s = record {
    kept = λ m h. elim (Bool-cases (shutdown_seen L m.waits)) [
      | inl e ↦ rw e (same-Has m (after_wait L m) refl refl h)
      | inr e ↦ rw e (erased-Has at i m (after_wait L m) refl refl s h)
    ];
  }

  pub change-Has :
      (i : String) (f : L.Resource → L.Resource) (m : Model L)
      → Has m
      → Has (record m { node_resources = (L.change_resource m.node_resources i f).1 })
  change-Has i f m h = go st h
    where
      go :
          (st : Store)
          → is_some (L.find_resource (stored L st m) j) ≡ true
          → is_some (
              L.find_resource
                (stored L st
                  (record m { node_resources = (L.change_resource m.node_resources i f).1 }))
                j)
            ≡ true
      go node_store h = L.present-change m.node_resources i j f ∙ h
      go connection_store h = h

  pub modify-Keeps :
      (i : String) (f : Model L → L.Resource → Except L.Resource) → Keeps (modify_connection L i f)
  modify-Keeps i f = record { kept = λ m h. go m st h }
    where
      go :
          (m : Model L) (st : Store)
          → is_some (L.find_resource (stored L st m) j) ≡ true
          → is_some (
              L.find_resource
                (stored L st (record m {
                  connection_resources = (L.modify_resource m.connection_resources i (f m)).1;
                }))
                j)
            ≡ true
      go m node_store h = h
      go m connection_store h = L.present-modify m.connection_resources i j (f m) ∙ h

  pub require-Keeps : (b : Bool) (e : String) → Keeps (require L b e)
  require-Keeps true e = record { kept = λ m h. h }
  require-Keeps false e = record { kept = λ m h. h }

  pub replace-Keeps : (x : L.Resource) → Keeps (replace_node_resource L x)
  replace-Keeps x = record { kept = λ m h. change-Has (L.resource_id x) (λ resource. x) m h }

  pub set_device-Keeps :
      (f : Model L → L.Resource → L.Resource) (g : Model L → Model L)
      → ((m : Model L) → (g m).node_resources ≡ m.node_resources)
      → ((m : Model L) → (g m).connection_resources ≡ m.connection_resources)
      → Keeps (λ m. set_device L (f m) (g m))
  unfolding set_device
  set_device-Keeps f g p q = record {
    kept = λ m h. change-Has (g m).device_id (f m) (g m) (same-Has m (g m) (p m) (q m) h);
  }

  pub replace_sender_resources-Keeps :
      (description : String) (r : SenderResources L) (two : Bool)
      → Keeps (replace_sender_resources L description r two)
  unfolding replace_sender_resources
  replace_sender_resources-Keeps description r two = >>=-Keeps _ _ (replace-Keeps r.source) (λ a.
      >>=-Keeps _ _ (replace-Keeps r.flow) (λ b. >>=-Keeps _ _ (replace-Keeps r.sender) (λ c.
        >>-Keeps _ _
          (require-Keeps (a && (b && c)) (concat (description ∷ " resource update failed!" ∷ [])))
          (>>=-Keeps _ _
            (modify-Keeps (L.resource_id r.sender) (λ m old.
              with_transportfile L description
                (L.find_resource m.node_resources (L.resource_id r.sender))
                (renewed_connection L two r.connection_sender old)))
            (λ d. require-Keeps d (concat (description ∷ " connection update failed!" ∷ [])))))))

  pub replace_receiver_resources-Keeps :
      (description : String) (r : ReceiverResources L) (two : Bool)
      → Keeps (replace_receiver_resources L description r two)
  unfolding replace_receiver_resources
  replace_receiver_resources-Keeps description r two =
      >>=-Keeps _ _ (replace-Keeps r.receiver) (λ a.
        >>-Keeps _ _ (require-Keeps a (concat (description ∷ " resource update failed!" ∷ []))) (
          >>=-Keeps _ _
            (modify-Keeps (L.resource_id r.receiver)
              (λ m old. ok (renewed_connection L two r.connection_receiver old)))
            (λ d. require-Keeps d (concat (description ∷ " connection update failed!" ∷ [])))))
