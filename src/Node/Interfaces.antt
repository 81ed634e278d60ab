-- ===== src/Node/Interfaces.antt =====
-- The choice of the network interfaces of a stream, src/node.cpp.
use nmos_client.Base.{
  String, Bool, true, false, not, ◌&&◌, ◌||◌, List, [], ◌∷◌, Option, none, some, ◌==◌, string_eq,
  if◌then◌else◌, is_empty, ℤ, pos, ltb_ℤ,
}
use nmos_client.Reconcile.Runtime.{HostInterface}

pub record RuntimeInterfaceLeg : Type 0 where
  pub interface : HostInterface
  pub ip : String
  pub selected : Bool

pub record RuntimeInterfaceSelection : Type 0 where
  pub primary : RuntimeInterfaceLeg
  pub redundancy : RuntimeInterfaceLeg

-- host_interface{}
abbrev pub no_interface : HostInterface
no_interface = record { index = 0; name = ""; physical_address = ""; addresses = []; domain = "" }

-- RuntimeInterfaceLeg{}
abbrev pub no_leg : RuntimeInterfaceLeg
no_leg = record { interface = no_interface; ip = ""; selected = false }

abbrev pub first_interface_address : HostInterface → String
first_interface_address i = elim i.addresses [ [] ↦ "" | a ∷ rest ↦ a ]

abbrev pub mem : String → List String → Bool
mem a [] = false
mem a (b ∷ bs) = b == a || mem a bs

abbrev pub interface_has_address : HostInterface → String → Bool
interface_has_address i address = not (address == "") && mem address i.addresses

abbrev pub make_runtime_interface_leg : HostInterface → String → RuntimeInterfaceLeg
make_runtime_interface_leg i ip = record { interface = i; ip = ip; selected = true }

-- A loop that returns at the first interface that passes the test.
abbrev pub first_that : (HostInterface → Bool) → List HostInterface → Option HostInterface
first_that test [] = none
first_that test (i ∷ is) = if test i then some i else first_that test is

abbrev pub is_bound : HostInterface → Bool
is_bound i = not (is_empty i.addresses)

-- What follows the first loop of `select_runtime_interface_leg`.
abbrev pub any_leg : List HostInterface → Option HostInterface → RuntimeInterfaceLeg
any_leg is (some i) = make_runtime_interface_leg i (first_interface_address i)
any_leg [] none = no_leg
any_leg (i ∷ is) none = make_runtime_interface_leg i ""

abbrev pub leg_or : String → Option HostInterface → RuntimeInterfaceLeg → RuntimeInterfaceLeg
leg_or ip none other = other
leg_or ip (some i) other = make_runtime_interface_leg i ip

unfoldable pub select_runtime_interface_leg : List HostInterface → String → RuntimeInterfaceLeg
select_runtime_interface_leg is configured_ip =
    leg_or configured_ip (first_that (λ i. interface_has_address i configured_ip) is)
      (any_leg is (first_that is_bound is))

-- Whether an interface serves for the second leg beside the first one.
abbrev pub is_other : RuntimeInterfaceLeg → HostInterface → Bool
is_other primary i = is_bound i && (not primary.selected || not (i.name == primary.interface.name))

abbrev pub other_leg :
    List HostInterface → RuntimeInterfaceLeg → Option HostInterface → RuntimeInterfaceLeg
unfolding select_runtime_interface_leg
other_leg is primary (some i) = make_runtime_interface_leg i (first_interface_address i)
other_leg is primary none = if primary.selected then primary else select_runtime_interface_leg is ""

unfoldable pub select_redundancy_runtime_interface_leg :
    List HostInterface → String → RuntimeInterfaceLeg → RuntimeInterfaceLeg
unfolding select_runtime_interface_leg
select_redundancy_runtime_interface_leg is configured_ip primary =
    leg_or configured_ip (first_that (λ i. interface_has_address i configured_ip) is)
      (other_leg is primary (first_that (is_other primary) is))

unfoldable pub select_runtime_interfaces :
    List HostInterface → String → String → Bool → RuntimeInterfaceSelection
unfolding select_runtime_interface_leg select_redundancy_runtime_interface_leg
select_runtime_interfaces is primary_source_ip redundancy_source_ip redundancy_enabled =
    let primary = select_runtime_interface_leg is primary_source_ip in
    record {
      primary = primary;
      redundancy =
          if redundancy_enabled
          then select_redundancy_runtime_interface_leg is redundancy_source_ip primary
          else no_leg;
    }

abbrev pub selected_name : RuntimeInterfaceLeg → List String
selected_name leg = if leg.selected then leg.interface.name ∷ [] else []

unfoldable pub selected_interface_names : RuntimeInterfaceSelection → Bool → List String
selected_interface_names s redundancy_enabled =
    if s.primary.selected
    then s.primary.interface.name ∷ (if redundancy_enabled then selected_name s.redundancy else [])
    else (if redundancy_enabled then selected_name s.redundancy else [])

abbrev pub receiver_multicast_ip_or_default : String → String → String
receiver_multicast_ip_or_default configured_ip fallback_ip =
    if configured_ip == "" then fallback_ip else configured_ip

abbrev pub receiver_port_or_default : ℤ → ℤ → ℤ
receiver_port_or_default configured_port fallback_port =
    if ltb_ℤ (pos 0) configured_port then configured_port else fallback_port
