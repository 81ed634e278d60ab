-- ===== src/Node/Library.antt =====
-- What src/node.cpp uses of nmos-cpp, which is not part of the repository. A `nmos::resource` is a
-- value with an id; `nmos::resources` is a container of them. The `build_*` fields are the calls
-- that only assemble nmos-cpp values in the functions `make_*_resources` of src/node.cpp: from the
-- ids, the stream and what was chosen for it. The laws are the documented behaviour of the container
-- and that a resource has the id that it was built with.
use nmos_client.Base.{
  ℕ, String, Bool, List, Option, none, some, Except, ℤ, ◌≡◌, ◌==◌, string_eq, if◌then◌else◌,
  is_some,
}
use nmos_client.Reconcile.Kind.{Kind, StreamOf}
use nmos_client.Format.Desc.{VideoFormatDesc}
use nmos_client.Node.Interfaces.{RuntimeInterfaceSelection}

-- One leg of the transport parameters of a receiver.
pub record TransportLeg : Type 0 where
  pub multicast_ip : String
  pub interface_ip : String
  pub port : ℤ

pub record Library (D : Type 0) : Type 1 where
  pub Resource : Type 0
  pub Resources : Type 0
  pub resource_id : Resource → String
  pub no_resources : Resources
  pub find_resource : Resources → String → Option Resource
  pub insert_resource : Resources → Resource → Bool × Resources
  pub erase_resource : Resources → String → Bool × Resources
  -- `modify_resource` with a modifier that may throw, and with one that cannot.
  pub modify_resource : Resources → String → (Resource → Except Resource) → Except Bool × Resources
  pub change_resource : Resources → String → (Resource → Resource) → Bool × Resources
  pub make_repeatable_id : String → String → String
  -- ST20_FMT_MAX
  pub st20_fmt_max : ℤ
  pub build_source : (k : Kind) → String → String → Option VideoFormatDesc → StreamOf D k → Resource
  pub build_flow :
      (k : Kind) → String → String → String → Option VideoFormatDesc → StreamOf D k → Resource
  pub build_sender : (k : Kind) → String → String → String → List String → StreamOf D k → Resource
  -- From the id, whether there are two legs, the interfaces, and whether each leg is enabled.
  pub build_connection_sender :
      Kind → String → Bool → RuntimeInterfaceSelection → Bool → Bool → Resource
  pub build_receiver :
      (k : Kind) → String → String → List String → List VideoFormatDesc → StreamOf D k → Resource
  pub build_connection_receiver :
      Kind → String → Bool → RuntimeInterfaceSelection → List TransportLeg → Resource
  -- The number of transport parameters of `endpoint_active`, if it is there with an array of them.
  pub active_legs : Resource → Option ℕ
  -- The second resource with the `endpoint_active` of the first.
  pub with_active_of : Resource → Resource → Resource
  pub set_transportfile : Resource → Resource → Except Resource
  pub set_device_senders : List String → Resource → Resource
  pub set_device_receivers : List String → Resource → Resource
  pub set_clock : List ℕ → Bool → Resource → Resource
  pub find-insert :
      (m : Resources) (x : Resource) (j : String)
      → find_resource (insert_resource m x).1 j ≡ (
          if (insert_resource m x).0
          then (if resource_id x == j then some x else find_resource m j)
          else find_resource m j)
  pub find-erase :
      (m : Resources) (i j : String)
      → find_resource (erase_resource m i).1 j ≡ (if i == j then none else find_resource m j)
  pub present-modify :
      (m : Resources) (i j : String) (f : Resource → Except Resource)
      → is_some (find_resource (modify_resource m i f).1 j) ≡ is_some (find_resource m j)
  pub present-change :
      (m : Resources) (i j : String) (f : Resource → Resource)
      → is_some (find_resource (change_resource m i f).1 j) ≡ is_some (find_resource m j)
  pub id-source :
      (k : Kind) (i device : String) (d : Option VideoFormatDesc) (x : StreamOf D k)
      → resource_id (build_source k i device d x) ≡ i
  pub id-flow :
      (k : Kind) (i source device : String) (d : Option VideoFormatDesc) (x : StreamOf D k)
      → resource_id (build_flow k i source device d x) ≡ i
  pub id-sender :
      (k : Kind) (i flow device : String) (names : List String) (x : StreamOf D k)
      → resource_id (build_sender k i flow device names x) ≡ i
  pub id-receiver :
      (k : Kind) (i device : String) (names : List String) (ds : List VideoFormatDesc)
      (x : StreamOf D k)
      → resource_id (build_receiver k i device names ds x) ≡ i
  pub id-connection_sender :
      (k : Kind) (i : String) (two : Bool) (s : RuntimeInterfaceSelection) (first second : Bool)
      → resource_id (build_connection_sender k i two s first second) ≡ i
  pub id-connection_receiver :
      (k : Kind) (i : String) (two : Bool) (s : RuntimeInterfaceSelection)
      (legs : List TransportLeg)
      → resource_id (build_connection_receiver k i two s legs) ≡ i
