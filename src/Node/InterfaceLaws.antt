-- ===== src/Node/InterfaceLaws.antt =====
-- What the choice of the network interfaces of a stream guarantees, src/node.cpp.
use nmos_client.Base.{
  not-==, String, Bool, true, false, not, ◌&&◌, ◌||◌, List, [], ◌∷◌, Option, none, some, ◌==◌,
  string_eq, if◌then◌else◌, is_empty, ◌≡◌, ◌≢◌, string_iff, arith, refl, sym, ◌⊎◌, inl, inr,
  Bool-cases, subst, ==-refl,
}
use nmos_client.Reconcile.Runtime.{HostInterface}
use nmos_client.Node.Interfaces.{
  RuntimeInterfaceLeg, no_leg, first_interface_address, mem, interface_has_address, first_that,
  is_bound, any_leg, leg_or, select_runtime_interface_leg, is_other,
  select_redundancy_runtime_interface_leg, select_runtime_interfaces,
}

-- One of a list.
abbrev pub Among : HostInterface → List HostInterface → Type 0
Among i [] = ⊥
Among i (j ∷ js) = (i ≡ j) ⊎ Among i js

-- What the first leg is: without interfaces it is not selected; else it is one of them, with one of its
-- addresses or the empty text.
abbrev pub IsLegOf : List HostInterface → RuntimeInterfaceLeg → Type 0
IsLegOf is leg =
    ((is ≡ []) × (leg ≡ no_leg))
    ⊎ ((leg.selected ≡ true)
        × Among leg.interface is
        × ((leg.ip ≡ "") ⊎ (mem leg.ip leg.interface.addresses ≡ true)))

-- Whether one passes the test.
unfoldable pub any_of : (HostInterface → Bool) → List HostInterface → Bool
any_of test [] = false
any_of test (i ∷ is) = test i || any_of test is

and-right : (a b : Bool) → (a && b) ≡ true → b ≡ true
and-right true b h = h
and-right false b h = absurd (cc h)

pub or-right : (a b : Bool) → a ≡ false → (a || b) ≡ true → b ≡ true
or-right true b e h = absurd (cc e)
or-right false b e h = h

or-false : (a b : Bool) → (a || b) ≡ false → (a ≡ false) × (b ≡ false)
or-false true b h = absurd (cc h)
or-false false b h = (refl, h)

-- The first that passes a test passes it and is one of the list.
first_that-some :
    (test : HostInterface → Bool) (is : List HostInterface) (i : HostInterface)
    → first_that test is ≡ some i
    → (test i ≡ true) × Among i is
first_that-some test [] i h = absurd (cc h)
first_that-some test (j ∷ js) i h = go (test j) refl h (first_that-some test js i)
  where
    go :
        (b : Bool)
        → test j ≡ b
        → (if b then some j else first_that test js) ≡ some i
        → (first_that test js ≡ some i → (test i ≡ true) × Among i js)
        → (test i ≡ true) × Among i (j ∷ js)
    go true e h r = let q : j ≡ i = cc h in (subst (λ i. test i ≡ true) q e, inl (sym q))
    go false e h r = let (p, q) = r h in (p, inr q)

first_that-found :
    (test : HostInterface → Bool) (is : List HostInterface)
    → any_of test is ≡ true
    → (i : HostInterface) × (first_that test is ≡ some i) × (test i ≡ true)
unfolding any_of
first_that-found test [] h = absurd (cc h)
first_that-found test (j ∷ js) h = elim (Bool-cases (test j)) [
  | inl e ↦ (j, rw e refl, e)
  | inr e ↦
      let (i, p, t) = first_that-found test js (or-right (test j) (any_of test js) e h) in
      (i, rw e p, t)
]

first_that-missed :
    (test : HostInterface → Bool) (is : List HostInterface)
    → any_of test is ≡ false
    → first_that test is ≡ none
unfolding any_of
first_that-missed test [] h = refl
first_that-missed test (j ∷ js) h =
    let (p, q) = or-false (test j) (any_of test js) h in rw p (first_that-missed test js q)

first-mem :
    (i : HostInterface) → is_bound i ≡ true → mem (first_interface_address i) i.addresses ≡ true
first-mem i h = go i.addresses h
  where
    go :
        (bs : List String)
        → not (is_empty bs) ≡ true
        → mem (elim bs [ [] ↦ "" | a ∷ rest ↦ a ]) bs ≡ true
    go [] h = absurd (cc h)
    go (a ∷ bs) h = rw (==-refl a) refl

any_leg-IsLegOf : (is : List HostInterface) → IsLegOf is (any_leg is (first_that is_bound is))
any_leg-IsLegOf is = go (first_that is_bound is) refl
  where
    unbound : (is : List HostInterface) → IsLegOf is (any_leg is none)
    unbound [] = inl (refl, refl)
    unbound (i ∷ is) = inr (refl, inl refl, inl refl)

    go : (o : Option HostInterface) → first_that is_bound is ≡ o → IsLegOf is (any_leg is o)
    go none e = unbound is
    go (some i) e =
        let (p, q) = first_that-some is_bound is i e in inr (refl, q, inr (first-mem i p))

-- The leg that `select_runtime_interface_leg` chooses is not selected only if there are no interfaces;
-- else it is on one of them, and its address is one of that interface or empty.
pub select_runtime_interface_leg-IsLegOf :
    (is : List HostInterface) (configured_ip : String)
    → IsLegOf is (select_runtime_interface_leg is configured_ip)
unfolding select_runtime_interface_leg
select_runtime_interface_leg-IsLegOf is ip =
    go (first_that (λ i. interface_has_address i ip) is) refl
  where
    go :
        (o : Option HostInterface)
        → first_that (λ i. interface_has_address i ip) is ≡ o
        → IsLegOf is (leg_or ip o (any_leg is (first_that is_bound is)))
    go none e = any_leg-IsLegOf is
    go (some i) e =
        let (p, q) = first_that-some (λ i. interface_has_address i ip) is i e in
        inr (refl, q, inr (and-right (not (ip == "")) (mem ip i.addresses) p))

-- Where interfaces have the two configured addresses, the two legs have them.
pub select_runtime_interfaces-configured :
    (is : List HostInterface) (ip redundancy_ip : String)
    → any_of (λ i. interface_has_address i ip) is ≡ true
    → any_of (λ i. interface_has_address i redundancy_ip) is ≡ true
    → ((select_runtime_interfaces is ip redundancy_ip true).primary.ip ≡ ip)
      × ((select_runtime_interfaces is ip redundancy_ip true).redundancy.ip ≡ redundancy_ip)
unfolding select_runtime_interfaces select_runtime_interface_leg
    select_redundancy_runtime_interface_leg
select_runtime_interfaces-configured is ip redundancy_ip h h' =
    let (i, e, t) = first_that-found (λ i. interface_has_address i ip) is h in
    let (j, e', t') = first_that-found (λ i. interface_has_address i redundancy_ip) is h' in
    (rw e refl, rw e' refl)

-- One of a list that passes a test makes a search for it succeed.
any_of-Among :
    (test : HostInterface → Bool) (is : List HostInterface) (i : HostInterface)
    → Among i is
    → test i ≡ true
    → any_of test is ≡ true
unfolding any_of
any_of-Among test [] i h e = absurd h
any_of-Among test (j ∷ js) i (inl p) e = rw (← p, e) refl
any_of-Among test (j ∷ js) i (inr h) e = elim (Bool-cases (test j)) [
  | inl q ↦ rw q refl
  | inr q ↦ rw q (any_of-Among test js i h e)
]

Among-not_empty : (i : HostInterface) (is : List HostInterface) → Among i is → is ≢ []
Among-not_empty i [] h e = absurd h
Among-not_empty i (j ∷ js) h e = absurd (cc e)

-- An interface of the list serves beside a leg: it has an address, and another name.
abbrev pub IsBeside : List HostInterface → HostInterface → HostInterface → Type 0
IsBeside is primary i = Among i is × (i.addresses ≢ []) × (i.name ≢ primary.name)

bound-not_empty : (i : HostInterface) → is_bound i ≡ true → i.addresses ≢ []
bound-not_empty i h e = absurd (cc (rw e at h))

beside-is_other :
    (leg : RuntimeInterfaceLeg) (i : HostInterface)
    → i.addresses ≢ []
    → i.name ≢ leg.interface.name
    → is_other leg i ≡ true
beside-is_other leg i a n =
    rw (bound i.addresses a, not-== i.name leg.interface.name n) (either leg.selected)
  where
    bound : (bs : List String) → bs ≢ [] → not (is_empty bs) ≡ true
    bound [] h = absurd (h refl)
    bound (b ∷ bs) h = refl

    either : (b : Bool) → (true && (not b || not false)) ≡ true
    either true = refl
    either false = refl

is_other-differs :
    (leg : RuntimeInterfaceLeg) (i : HostInterface)
    → leg.selected ≡ true
    → is_other leg i ≡ true
    → (is_bound i ≡ true) × (i.name ≢ leg.interface.name)
is_other-differs leg i s h = (
  ground arith,
  λ e. let same = (string_iff i.name leg.interface.name).1 e in ground (arith, same),
)

-- Where no interface has the second configured address, but one with an address bears another name
-- than the interface of the first leg, the second leg is selected, on an interface of the list that
-- bears another name than that of the first leg, with one of its addresses.
pub select_runtime_interfaces-spread :
    (is : List HostInterface) (ip redundancy_ip : String) (i : HostInterface)
    → any_of (λ i. interface_has_address i redundancy_ip) is ≡ false
    → IsBeside is (select_runtime_interfaces is ip redundancy_ip true).primary.interface i
    → let legs = select_runtime_interfaces is ip redundancy_ip true in
      (legs.redundancy.selected ≡ true)
      × IsBeside is legs.primary.interface legs.redundancy.interface
      × (mem legs.redundancy.ip legs.redundancy.interface.addresses ≡ true)
unfolding select_runtime_interfaces select_redundancy_runtime_interface_leg
select_runtime_interfaces-spread is ip redundancy_ip i h (among, addresses, name) =
    let primary = select_runtime_interface_leg is ip in
    let missed = first_that-missed (λ i. interface_has_address i redundancy_ip) is h in
    let (j, e, t) =
      first_that-found (is_other primary) is
        (any_of-Among (is_other primary) is i among (beside-is_other primary i addresses name)) in
    let (bound, differs) =
      is_other-differs primary j (chosen primary (select_runtime_interface_leg-IsLegOf is ip)) t in
    rw (missed, e)
      (
        refl,
        ((first_that-some (is_other primary) is j e).1, bound-not_empty j bound, differs),
        first-mem j bound,
      )
  where
    chosen : (leg : RuntimeInterfaceLeg) → IsLegOf is leg → leg.selected ≡ true
    chosen leg (inl (e, q)) = absurd (Among-not_empty i is among e)
    chosen leg (inr (s, q, r)) = s
