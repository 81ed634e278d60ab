-- ===== src/Node/Runtime.antt =====
-- The node of src/node.cpp as the runtime of src/daemon/node_runtime.cpp: its methods by kind, on the
-- states whose cached senders have the ids of their resources.
use nmos_client.Base.{
  ℕ, String, Bool, List, Option, none, some, Except, ◌≡◌, sym, ap, ◌∙◌, ℤ, string_eq,
}
use nmos_client.Base.Exec.{Exec}
use nmos_client.Reconcile.Kind.{
  Kind, StreamOf, id_of, plain, video_receiver, audio_receiver, ancillary_receiver, video_sender,
  audio_sender, ancillary_sender,
}
use nmos_client.Reconcile.Runtime.{HostInterface, NodeOps, IsRuntime}
use nmos_client.Node.Library.{Library}
use nmos_client.Node.State.{Cache, Model, Node, video, audio, ancillary}
use nmos_client.Node.Methods.{
  add_sender, add_receiver, update_sender, update_receiver, remove_sender, remove_receiver,
  set_ptp_clock, set_runtime_interfaces,
}
use nmos_client.Node.Named.{IsInjective, IsNamed}
use nmos_client.Node.Effect.{held_in, Effect}
use nmos_client.Node.MethodEffects.{
  add_sender-Effect, add_receiver-Effect, update_sender-Effect, update_receiver-Effect,
  remove_sender-Effect, remove_receiver-Effect,
}

module _ {D : Type 0} (L : Library D) where
  unfoldable pub add : (k : Kind) → StreamOf D k → Exec (Node L) (Unit {0})
  unfolding add_sender add_receiver
  add video_sender = add_sender L video
  add audio_sender = add_sender L audio
  add ancillary_sender = add_sender L ancillary
  add video_receiver = add_receiver L video
  add audio_receiver = add_receiver L audio
  add ancillary_receiver = add_receiver L ancillary

  unfoldable pub update : (k : Kind) → StreamOf D k → Exec (Node L) (Unit {0})
  unfolding update_sender update_receiver
  update video_sender = update_sender L video
  update audio_sender = update_sender L audio
  update ancillary_sender = update_sender L ancillary
  update video_receiver = update_receiver L video
  update audio_receiver = update_receiver L audio
  update ancillary_receiver = update_receiver L ancillary

  unfoldable pub remove : Kind → String → Exec (Node L) (Unit {0})
  unfolding remove_sender remove_receiver
  remove video_sender = remove_sender L video
  remove audio_sender = remove_sender L audio
  remove ancillary_sender = remove_sender L ancillary
  remove video_receiver = remove_receiver L video
  remove audio_receiver = remove_receiver L audio
  remove ancillary_receiver = remove_receiver L ancillary

  module _ (n : Node L) (named : IsNamed L n.cache) where
    -- Where `add` of a kind of stream returns, the node holds the stream under its kind and id, sender
    -- id aside, and every other stream as before; where it throws, it holds all as before.
    pub add-Effect :
        (k : Kind) (x : StreamOf D k) → Effect L k (id_of D k x) (some (plain D k x)) n (add k x n)
    unfolding add
    add-Effect video_sender = add_sender-Effect L n named video
    add-Effect audio_sender = add_sender-Effect L n named audio
    add-Effect ancillary_sender = add_sender-Effect L n named ancillary
    add-Effect video_receiver = add_receiver-Effect L n named video
    add-Effect audio_receiver = add_receiver-Effect L n named audio
    add-Effect ancillary_receiver = add_receiver-Effect L n named ancillary

    pub update-Effect :
        (k : Kind) (x : StreamOf D k)
        → Effect L k (id_of D k x) (some (plain D k x)) n (update k x n)
    unfolding update
    update-Effect video_sender = update_sender-Effect L n named video
    update-Effect audio_sender = update_sender-Effect L n named audio
    update-Effect ancillary_sender = update_sender-Effect L n named ancillary
    update-Effect video_receiver = update_receiver-Effect L n named video
    update-Effect audio_receiver = update_receiver-Effect L n named audio
    update-Effect ancillary_receiver = update_receiver-Effect L n named ancillary

    pub remove-Effect : IsInjective L → (k : Kind) (i : String) → Effect L k i none n (remove k i n)
    unfolding remove
    remove-Effect injective video_sender = remove_sender-Effect L n named injective video
    remove-Effect injective audio_sender = remove_sender-Effect L n named injective audio
    remove-Effect injective ancillary_sender = remove_sender-Effect L n named injective ancillary
    remove-Effect injective video_receiver = remove_receiver-Effect L n named video
    remove-Effect injective audio_receiver = remove_receiver-Effect L n named audio
    remove-Effect injective ancillary_receiver = remove_receiver-Effect L n named ancillary

  -- The states that the methods keep to.
  abbrev pub NamedNode : Type 0
  NamedNode = (n : Node L) × IsNamed L n.cache

  abbrev pub on_named :
      (f : Exec (Node L) (Unit {0}))
      → ((n : Node L) → IsNamed L n.cache → IsNamed L (f n).1.cache)
      → Exec NamedNode (Unit {0})
  on_named f keeps s = ((f s.0).0, ((f s.0).1, keeps s.0 s.1))

  abbrev pub on_model : (Cache D → Exec (Model L) (Unit {0})) → Exec (Node L) (Unit {0})
  on_model f n = let r = f n.cache n.model in (r.0, record { cache = n.cache; model = r.1 })

  abbrev pub view : (k : Kind) → NamedNode → String → Option (StreamOf D k)
  view k s j = held_in L k s.0.cache j

  -- What a call did, from its result.
  module _ (f : Exec (Node L) (Unit {0}))
      (keeps : (n : Node L) → IsNamed L n.cache → IsNamed L (f n).1.cache) (s s' : NamedNode)
      {r : Except (Unit {0})} (returned : on_named f keeps s ≡ (r, s')) where
    result : (f s.0).0 ≡ r
    result = ap (λ (p : Except (Unit {0}) × NamedNode). p.0) returned

    view_after : (k : Kind) (j : String) → view k s' j ≡ held_in L k (f s.0).1.cache j
    view_after k j = sym (ap (λ (p : Except (Unit {0}) × NamedNode). view k p.1 j) returned)

  -- `bytes` gives the bytes of a text.
  module _ (bytes : String → List ℕ) (injective : IsInjective L) where
    abbrev pub clock_call : String → Bool → ℤ → Exec (Node L) (Unit {0})
    unfolding set_ptp_clock
    clock_call gmid locked domain = on_model (λ c. set_ptp_clock L (bytes gmid) locked domain)

    abbrev pub interfaces_call : List HostInterface → Exec (Node L) (Unit {0})
    unfolding set_runtime_interfaces
    interfaces_call interfaces = on_model (set_runtime_interfaces L interfaces)

    pub add_named :
        (k : Kind) (x : StreamOf D k) (n : Node L)
        → IsNamed L n.cache
        → IsNamed L (add k x n).1.cache
    add_named k x n named = (add-Effect n named k x).keeps

    pub update_named :
        (k : Kind) (x : StreamOf D k) (n : Node L)
        → IsNamed L n.cache
        → IsNamed L (update k x n).1.cache
    update_named k x n named = (update-Effect n named k x).keeps

    pub remove_named :
        (k : Kind) (i : String) (n : Node L) → IsNamed L n.cache → IsNamed L (remove k i n).1.cache
    remove_named k i n named = (remove-Effect n named injective k i).keeps

    unfoldable pub node_ops : NodeOps D NamedNode
    unfolding add update remove set_ptp_clock set_runtime_interfaces
    node_ops = record {
      set_ptp_clock =
          λ gmid locked domain. on_named (clock_call gmid locked domain) (λ n named. named);
      set_runtime_interfaces =
          λ interfaces. on_named (interfaces_call interfaces) (λ n named. named);
      add = λ k x. on_named (add k x) (add_named k x);
      update = λ k x. on_named (update k x) (update_named k x);
      remove = λ k i. on_named (remove k i) (remove_named k i);
    }

    -- On its lists of streams, whatever becomes of the resources, the node is a runtime as the reconcile
    -- engine needs it: a call that returns has put its stream into its list, or taken it out, and
    -- changed no other; one that throws has changed no list; neither setter changes a list. That the
    -- ids which nmos-cpp makes from one seed differ for different texts is assumed.
    pub node_ops-IsRuntime : IsRuntime node_ops view
    unfolding node_ops
    node_ops-IsRuntime = record {
      clock_keeps = λ gmid locked domain s s' e.
          view_after (clock_call gmid locked domain) (λ n named. named) s s' e;
      interfaces_keep =
          λ interfaces s s' e. view_after (interfaces_call interfaces) (λ n named. named) s s' e;
      add_view = λ k x s s' e j.
          view_after (add k x) (add_named k x) s s' e k j
          ∙ (add-Effect s.0 s.1 k x).done (result (add k x) (add_named k x) s s' e) j;
      update_view = λ k x s s' e j.
          view_after (update k x) (update_named k x) s s' e k j
          ∙ (update-Effect s.0 s.1 k x).done (result (update k x) (update_named k x) s s' e) j;
      remove_view = λ k i s s' e j.
          view_after (remove k i) (remove_named k i) s s' e k j
          ∙ (remove-Effect s.0 s.1 injective k i).done
              (result (remove k i) (remove_named k i) s s' e) j;
      add_keeps = λ k l x s s' d e j.
          view_after (add k x) (add_named k x) s s' e l j ∙ (add-Effect s.0 s.1 k x).others l d j;
      update_keeps = λ k l x s s' d e j.
          view_after (update k x) (update_named k x) s s' e l j
          ∙ (update-Effect s.0 s.1 k x).others l d j;
      remove_keeps = λ k l i s s' d e j.
          view_after (remove k i) (remove_named k i) s s' e l j
          ∙ (remove-Effect s.0 s.1 injective k i).others l d j;
      clock_fails = λ gmid locked domain s s' x e.
          view_after (clock_call gmid locked domain) (λ n named. named) s s' e;
      interfaces_fail =
          λ interfaces s s' x e. view_after (interfaces_call interfaces) (λ n named. named) s s' e;
      add_fails = λ k x s s' y e l j.
          view_after (add k x) (add_named k x) s s' e l j
          ∙ (add-Effect s.0 s.1 k x).failed y (result (add k x) (add_named k x) s s' e) l j;
      update_fails = λ k x s s' y e l j.
          view_after (update k x) (update_named k x) s s' e l j
          ∙ (update-Effect s.0 s.1 k x).failed y (result (update k x) (update_named k x) s s' e) l
              j;
      remove_fails = λ k i s s' y e l j.
          view_after (remove k i) (remove_named k i) s s' e l j
          ∙ (remove-Effect s.0 s.1 injective k i).failed y
              (result (remove k i) (remove_named k i) s s' e) l j;
    }
