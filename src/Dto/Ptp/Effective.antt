-- ===== src/Dto/Ptp/Effective.antt =====
-- The values that a PTP clock of src/daemon/dto.cpp stands for.
use nmos_client.Base.{true, false, ◌≡◌, ◌≤ℤ◌, pos, List, [], ◌∷◌, refl, arith, ◌==◌, string_eq}
use nmos_client.Dto.Types.{Entry, PtpClockDto}
use nmos_client.Dto.Ptp.{
  gmid_of, locked_of, domain_of, effective_gmid, effective_locked, effective_ptp_domain,
}

module _ {D : Type 0} where
  -- The entry `e` is the first of a list that is active, connected and initialised.
  pub data IsFirst (e : Entry D) : List (Entry D) → Type 0 where
    at_head :
        (entries : List (Entry D))
        → e.is_active ≡ true
        → e.is_connected ≡ true
        → e.master_initialized ≡ true
        → IsFirst e (e ∷ entries)
    inactive :
        (x : Entry D) (entries : List (Entry D))
        → x.is_active ≡ false
        → IsFirst e entries
        → IsFirst e (x ∷ entries)
    unconnected :
        (x : Entry D) (entries : List (Entry D))
        → x.is_connected ≡ false
        → IsFirst e entries
        → IsFirst e (x ∷ entries)
    uninitialised :
        (x : Entry D) (entries : List (Entry D))
        → x.master_initialized ≡ false
        → IsFirst e entries
        → IsFirst e (x ∷ entries)

  domain_of_bounds : (es : List (Entry D)) → (pos 0 ≤ℤ domain_of es) × (domain_of es ≤ℤ pos 127)
  unfolding domain_of
  domain_of_bounds [] = omega arith
  domain_of_bounds (e ∷ es) = ground (arith, domain_of_bounds es)

  -- The domain that a clock stands for lies in 0 to 127, whatever numbers its entries hold.
  pub effective_ptp_domain_bounds :
      (c : PtpClockDto D) → (pos 0 ≤ℤ effective_ptp_domain c) × (effective_ptp_domain c ≤ℤ pos 127)
  unfolding effective_ptp_domain
  effective_ptp_domain_bounds c = domain_of_bounds c.entries

  gmid_of-first :
      (e : Entry D) (es : List (Entry D))
      → IsFirst e es
      → (e.grandmaster_identity == "") ≡ false
      → gmid_of es ≡ e.grandmaster_identity
  unfolding gmid_of
  gmid_of-first e es (at_head entries a c m) h = rw (a, c, m, h) refl
  gmid_of-first e es (inactive x entries q f) h = rw q (gmid_of-first e entries f h)
  gmid_of-first e es (unconnected x entries q f) h =
      let r = gmid_of-first e entries f h in ground (arith, r)
  gmid_of-first e es (uninitialised x entries q f) h =
      let r = gmid_of-first e entries f h in ground (arith, r)

  locked_of-first : (e : Entry D) (es : List (Entry D)) → IsFirst e es → locked_of es ≡ e.is_locked
  unfolding locked_of
  locked_of-first e es (at_head entries a c m) = rw (a, c, m) refl
  locked_of-first e es (inactive x entries q f) = rw q (locked_of-first e entries f)
  locked_of-first e es (unconnected x entries q f) =
      let r = locked_of-first e entries f in ground (arith, r)
  locked_of-first e es (uninitialised x entries q f) =
      let r = locked_of-first e entries f in ground (arith, r)

  domain_of-first :
      (e : Entry D) (es : List (Entry D))
      → IsFirst e es
      → pos 0 ≤ℤ e.t1_domain_number
      → e.t1_domain_number ≤ℤ pos 127
      → domain_of es ≡ e.t1_domain_number
  unfolding domain_of
  domain_of-first e es (at_head entries a c m) l u = ground arith
  domain_of-first e es (inactive x entries q f) l u =
      let r = domain_of-first e entries f l u in ground (arith, r)
  domain_of-first e es (unconnected x entries q f) l u =
      let r = domain_of-first e entries f l u in ground (arith, r)
  domain_of-first e es (uninitialised x entries q f) l u =
      let r = domain_of-first e entries f l u in ground (arith, r)

  -- Where the first entry that is active, connected and initialised names its grandmaster and has a
  -- domain in 0 to 127, the identity, the lock and the domain of a clock are those of this entry.
  pub effective-first :
      (c : PtpClockDto D) (e : Entry D)
      → IsFirst e c.entries
      → (e.grandmaster_identity == "") ≡ false
      → pos 0 ≤ℤ e.t1_domain_number
      → e.t1_domain_number ≤ℤ pos 127
      → (effective_gmid c ≡ e.grandmaster_identity)
        × (effective_locked c ≡ e.is_locked)
        × (effective_ptp_domain c ≡ e.t1_domain_number)
  unfolding effective_gmid effective_locked effective_ptp_domain
  effective-first c e f h l u = (
    gmid_of-first e c.entries f h,
    locked_of-first e c.entries f,
    domain_of-first e c.entries f l u,
  )
