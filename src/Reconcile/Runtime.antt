-- ===== src/Reconcile/Runtime.antt =====
-- `NodeRuntime` of src/daemon/node_runtime.cpp as the reconcile engine uses it. Its methods hand
-- their argument on to `nmos_node::Node`, whose part of the state is `S`. The operations are a record,
-- and `IsRuntime` is the contract: a call that returns has put the stream in place, or taken it
-- away, and changed no other stream.
use nmos_client.Base.{
  ℕ, ◌-◌, ◌%◌, ◌^◌, String, Bool, List, [], ◌∷◌, map, Option, none, some, ok, ℤ, pos, negsuc, ◌≡◌,
  ◌≢◌, ◌==◌, string_eq, if◌then◌else◌, err,
}
use nmos_client.Base.Exec.{Exec}
use nmos_client.Dto.Types.{DeviceDto, PtpClockDto}
use nmos_client.Dto.Ptp.{effective_gmid, effective_locked, effective_ptp_domain}
use nmos_client.Reconcile.Kind.{Kind, StreamOf, id_of, plain}

-- The arguments of `web::hosts::experimental::host_interface`.
pub record HostInterface : Type 0 where
  pub index : ℕ
  pub name : String
  pub physical_address : String
  pub addresses : List String
  pub domain : String

-- static_cast<std::uint32_t>(id)
abbrev pub to_uint32 : ℤ → ℕ
to_uint32 (pos n) = n % 2 ^ 32
to_uint32 (negsuc n) = 2 ^ 32 - 1 - n % 2 ^ 32

unfoldable pub device_to_interface : DeviceDto → HostInterface
device_to_interface d = record {
  index = to_uint32 d.id;
  name = d.display_name;
  physical_address = d.device;
  addresses = if d.sip == "" then [] else d.sip ∷ [];
  domain = ".";
}

-- `nmos_node::Node`: add_*, update_* and remove_* by kind, and the two setters.
pub record NodeOps (D S : Type 0) : Type 0 where
  pub set_ptp_clock : String → Bool → ℤ → Exec S (Unit {0})
  pub set_runtime_interfaces : List HostInterface → Exec S (Unit {0})
  pub add : (k : Kind) → StreamOf D k → Exec S (Unit {0})
  pub update : (k : Kind) → StreamOf D k → Exec S (Unit {0})
  pub remove : (k : Kind) → String → Exec S (Unit {0})

module _ {D S : Type 0} (node : NodeOps D S) where
  unfoldable pub set_ptp_clock : PtpClockDto D → Exec S (Unit {0})
  set_ptp_clock c =
      node.set_ptp_clock (effective_gmid c) (effective_locked c) (effective_ptp_domain c)

  unfoldable pub set_runtime_devices : List DeviceDto → Exec S (Unit {0})
  unfolding device_to_interface
  set_runtime_devices devices = node.set_runtime_interfaces (map device_to_interface devices)

  -- The streams that a node holds, by kind and id, sender ids aside.
  pub record IsRuntime (view : (k : Kind) → S → String → Option (StreamOf D k)) : Type 0 where
    pub clock_keeps :
        (gmid : String) (locked : Bool) (domain : ℤ) (s s' : S)
        → node.set_ptp_clock gmid locked domain s ≡ (ok tt, s')
        → (k : Kind) (j : String) → view k s' j ≡ view k s j
    pub interfaces_keep :
        (is : List HostInterface) (s s' : S)
        → node.set_runtime_interfaces is s ≡ (ok tt, s')
        → (k : Kind) (j : String) → view k s' j ≡ view k s j
    pub add_view :
        (k : Kind) (x : StreamOf D k) (s s' : S)
        → node.add k x s ≡ (ok tt, s')
        → (j : String) → view k s' j ≡ (if id_of D k x == j then some (plain D k x) else view k s j)
    pub update_view :
        (k : Kind) (x : StreamOf D k) (s s' : S)
        → node.update k x s ≡ (ok tt, s')
        → (j : String) → view k s' j ≡ (if id_of D k x == j then some (plain D k x) else view k s j)
    pub remove_view :
        (k : Kind) (id : String) (s s' : S)
        → node.remove k id s ≡ (ok tt, s')
        → (j : String) → view k s' j ≡ (if id == j then none else view k s j)
    pub add_keeps :
        (k l : Kind) (x : StreamOf D k) (s s' : S)
        → k ≢ l
        → node.add k x s ≡ (ok tt, s')
        → (j : String) → view l s' j ≡ view l s j
    pub update_keeps :
        (k l : Kind) (x : StreamOf D k) (s s' : S)
        → k ≢ l
        → node.update k x s ≡ (ok tt, s')
        → (j : String) → view l s' j ≡ view l s j
    pub remove_keeps :
        (k l : Kind) (id : String) (s s' : S)
        → k ≢ l
        → node.remove k id s ≡ (ok tt, s')
        → (j : String) → view l s' j ≡ view l s j
    -- A call that throws has changed no stream.
    pub clock_fails :
        (gmid : String) (locked : Bool) (domain : ℤ) (s s' : S) (e : String)
        → node.set_ptp_clock gmid locked domain s ≡ (err e, s')
        → (k : Kind) (j : String) → view k s' j ≡ view k s j
    pub interfaces_fail :
        (is : List HostInterface) (s s' : S) (e : String)
        → node.set_runtime_interfaces is s ≡ (err e, s')
        → (k : Kind) (j : String) → view k s' j ≡ view k s j
    pub add_fails :
        (k : Kind) (x : StreamOf D k) (s s' : S) (e : String)
        → node.add k x s ≡ (err e, s')
        → (l : Kind) (j : String) → view l s' j ≡ view l s j
    pub update_fails :
        (k : Kind) (x : StreamOf D k) (s s' : S) (e : String)
        → node.update k x s ≡ (err e, s')
        → (l : Kind) (j : String) → view l s' j ≡ view l s j
    pub remove_fails :
        (k : Kind) (id : String) (s s' : S) (e : String)
        → node.remove k id s ≡ (err e, s')
        → (l : Kind) (j : String) → view l s' j ≡ view l s j
