-- ===== src/Node/TestLibrary.antt =====
-- Test data: a library whose resources are their ids, and a node without streams.
use nmos_client.Base.{
  String, Bool, true, false, List, [], ◌∷◌, Option, none, some, Except, ok, err, ℤ, pos, ◌≡◌, refl,
  ◌==◌, string_eq, string_iff, if◌then◌else◌, is_some, arith, Bool-cases, inl, inr,
}
use nmos_client.Reconcile.Runtime.{HostInterface}
use nmos_client.Node.Library.{Library}
use nmos_client.Node.State.{Cache, Model}
use nmos_client.Node.Named.{IsInjective, IsNamed}
use nmos_client.Node.Runtime.{NamedNode}
use nmos_client.Reconcile.Kind.{
  video_receiver, audio_receiver, ancillary_receiver, video_sender, audio_sender, ancillary_sender,
}

abbrev pub find_id : List String → String → Option String
find_id [] j = none
find_id (i ∷ is) j = if i == j then some i else find_id is j

abbrev pub erase_id : List String → String → List String
erase_id [] j = []
erase_id (i ∷ is) j = if i == j then erase_id is j else i ∷ erase_id is j

abbrev pub insert_id : List String → String → Bool × List String
insert_id is i = if is_some (find_id is i) then (false, is) else (true, i ∷ is)

abbrev pub modified : Option String → (String → Except String) → Except Bool
modified none f = ok false
modified (some x) f = elim (f x) [ ok y ↦ ok true | err e ↦ err e ]

pub find-insert_id :
    (is : List String) (i j : String)
    → find_id (insert_id is i).1 j
      ≡ (if (insert_id is i).0 then (if i == j then some i else find_id is j) else find_id is j)
find-insert_id is i j = elim (Bool-cases (is_some (find_id is i))) [
  | inl e ↦ rw e refl
  | inr e ↦ rw e refl
]

pub find-erase_id :
    (is : List String) (i j : String)
    → find_id (erase_id is i) j ≡ (if i == j then none else find_id is j)
find-erase_id [] i j = ground arith
find-erase_id (x ∷ xs) i j =
    ground (arith, find-erase_id xs i j, string_iff x i, string_iff x j, string_iff i j)

abbrev pub test_library : Library ℤ
test_library = record {
  Resource = String;
  Resources = List String;
  resource_id = λ x. x;
  no_resources = [];
  find_resource = find_id;
  insert_resource = insert_id;
  erase_resource = λ rs i. (is_some (find_id rs i), erase_id rs i);
  modify_resource = λ rs i f. (modified (find_id rs i) f, rs);
  change_resource = λ rs i f. (is_some (find_id rs i), rs);
  make_repeatable_id = λ seed text. text;
  st20_fmt_max = pos 12;
  build_source = λ k i device d x. i;
  build_flow = λ k i source device d x. i;
  build_sender = λ k i flow device names x. i;
  build_connection_sender = λ k i two s first second. i;
  build_receiver = λ k i device names ds x. i;
  build_connection_receiver = λ k i two s legs. i;
  active_legs = λ x. none;
  with_active_of = λ old new. new;
  set_transportfile = λ sender connection. ok connection;
  set_device_senders = λ ids x. x;
  set_device_receivers = λ ids x. x;
  set_clock = λ gmid locked x. x;
  find-insert = find-insert_id;
  find-erase = find-erase_id;
  present-modify = λ rs i j f. refl;
  present-change = λ rs i j f. refl;
  id-source = λ k i device d x. refl;
  id-flow = λ k i source device d x. refl;
  id-sender = λ k i flow device names x. refl;
  id-receiver = λ k i device names ds x. refl;
  id-connection_sender = λ k i two s first second. refl;
  id-connection_receiver = λ k i two s legs. refl;
}

pub test_library-IsInjective : IsInjective test_library
test_library-IsInjective seed a b h = h

abbrev pub no_streams : Cache ℤ
no_streams = record {
  seed_id = "seed";
  video_senders = [];
  audio_senders = [];
  ancillary_senders = [];
  video_receivers = [];
  audio_receivers = [];
  ancillary_receivers = [];
}

abbrev pub port_a : HostInterface
port_a = record {
  index = 1;
  name = "a";
  physical_address = "";
  addresses = "10.0.0.1" ∷ [];
  domain = ".";
}

abbrev pub port_b : HostInterface
port_b = record {
  index = 2;
  name = "b";
  physical_address = "";
  addresses = "10.0.0.2" ∷ "10.0.0.3" ∷ [];
  domain = ".";
}

abbrev pub test_model : List Bool → Model test_library
test_model waits = record {
  node_id = "node";
  device_id = "device";
  node_resources = "node" ∷ "device" ∷ [];
  connection_resources = [];
  sender_ids = [];
  receiver_ids = [];
  source_ids = [];
  flow_ids = [];
  runtime_interfaces = port_a ∷ port_b ∷ [];
  ptp_domain_number = pos 127;
  waits = waits;
}

abbrev pub test_named : IsNamed test_library no_streams
test_named video_receiver = tt
test_named audio_receiver = tt
test_named ancillary_receiver = tt
test_named video_sender = tt
test_named audio_sender = tt
test_named ancillary_sender = tt

abbrev pub fresh_node : NamedNode test_library
fresh_node = (record { cache = no_streams; model = test_model [] }, test_named)
