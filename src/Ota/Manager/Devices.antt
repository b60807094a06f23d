-- ===== src/Ota/Manager/Devices.antt =====
-- The map of devices: one device for each type, counted, and found as long as it is registered.
use ota_new.Common.{
  ℕ, ◌+◌, ◌≡◌, ◌≢◌, refl, sym, ◌∙◌, List, [], ◌∷◌, none, some, false, Bool-cases, Option-cases, inl,
  inr, ◌==◌, ==_iff, All, arith, length, subst,
}
use ota_new.Ota.Device.{Device, World}
use ota_new.Ota.Manager.{
  Service, find_device, put_device, erase_device, new_device, add_device, remove_device,
  check_device, on_device,
}

abbrev Absent : ℕ → List (ℕ × Device) → Type 0
Absent t ds = All (λ (p : ℕ × Device). p.0 ≢ t) ds

abbrev Distinct : List (ℕ × Device) → Type 0
Distinct [] = Unit {0}
Distinct ((t, d) ∷ ds) = Absent t ds × Distinct ds

pub record IsValid {S : Type 0} (m : Service S) : Type 0 where
  pub distinct : Distinct m.devices
  pub counted : m.device_counts ≡ length m.devices

find-Absent : (t : ℕ) (ds : List (ℕ × Device)) → find_device t ds ≡ none → Absent t ds
unfolding find_device
find-Absent t [] e = tt
find-Absent t ((u, d) ∷ ds) e = elim (Bool-cases (u == t)) [
  | inl hit ↦ ground arith
  | inr miss ↦ (ground arith, find-Absent t ds (ground arith))
]

Absent-find : (t : ℕ) (ds : List (ℕ × Device)) → Absent t ds → find_device t ds ≡ none
unfolding find_device
Absent-find t [] h = refl
Absent-find t ((u, d) ∷ ds) (ne, h) = ground (arith, Absent-find t ds h)

put-Absent :
    (u t : ℕ) (d : Device) (ds : List (ℕ × Device))
    → t ≢ u
    → Absent u ds
    → Absent u (put_device t d ds)
unfolding put_device
put-Absent u t d [] ne h = (ne, tt)
put-Absent u t d ((v, e) ∷ ds) ne (hv, h) = elim (Bool-cases (v == t)) [
  | inl hit ↦ rw hit (hv, h)
  | inr miss ↦ rw miss (hv, put-Absent u t d ds ne h)
]

put-Distinct :
    (t : ℕ) (d : Device) (ds : List (ℕ × Device)) → Distinct ds → Distinct (put_device t d ds)
unfolding put_device
put-Distinct t d [] h = (tt, tt)
put-Distinct t d ((v, e) ∷ ds) (hv, h) = elim (Bool-cases (v == t)) [
  | inl hit ↦ rw hit (hv, h)
  | inr miss ↦ rw miss (put-Absent v t d ds (λ p. ground arith) hv, put-Distinct t d ds h)
]

length-put_new :
    (t : ℕ) (d : Device) (ds : List (ℕ × Device))
    → Absent t ds
    → length (put_device t d ds) ≡ length ds + 1
unfolding put_device
length-put_new t d [] h = refl
length-put_new t d ((v, e) ∷ ds) (ne, h) = ground (arith, length-put_new t d ds h)

length-put_old :
    (t : ℕ) (d f : Device) (ds : List (ℕ × Device))
    → find_device t ds ≡ some f
    → length (put_device t d ds) ≡ length ds
unfolding put_device find_device
length-put_old t d f [] e = cc
length-put_old t d f ((v, g) ∷ ds) e = ground (arith, length-put_old t d f ds)

erase-Absent : (u t : ℕ) (ds : List (ℕ × Device)) → Absent u ds → Absent u (erase_device t ds)
unfolding erase_device
erase-Absent u t [] h = tt
erase-Absent u t ((v, e) ∷ ds) (hv, h) = elim (Bool-cases (v == t)) [
  | inl hit ↦ rw hit h
  | inr miss ↦ rw miss (hv, erase-Absent u t ds h)
]

erase-Distinct : (t : ℕ) (ds : List (ℕ × Device)) → Distinct ds → Distinct (erase_device t ds)
unfolding erase_device
erase-Distinct t [] h = tt
erase-Distinct t ((v, e) ∷ ds) (hv, h) = elim (Bool-cases (v == t)) [
  | inl hit ↦ rw hit h
  | inr miss ↦ rw miss (erase-Absent v t ds hv, erase-Distinct t ds h)
]

erase-Absent_self : (t : ℕ) (ds : List (ℕ × Device)) → Distinct ds → Absent t (erase_device t ds)
unfolding erase_device
erase-Absent_self t [] h = tt
erase-Absent_self t ((v, e) ∷ ds) (hv, h) = elim (Bool-cases (v == t)) [
  | inl hit ↦ rw hit (subst (λ (k : ℕ). Absent k ds) ((==_iff v t).0 hit) hv)
  | inr miss ↦ rw miss (ground arith, erase-Absent_self t ds h)
]

length-erase :
    (t : ℕ) (f : Device) (ds : List (ℕ × Device))
    → find_device t ds ≡ some f
    → length (erase_device t ds) + 1 ≡ length ds
unfolding erase_device find_device
length-erase t f [] e = cc
length-erase t f ((v, g) ∷ ds) e = ground (arith, length-erase t f ds)

module _ {S : Type 0} where
  -- `add_device` keeps one device for each type and the count of them, whether the type is new or not.
  pub add_device-IsValid : (t : ℕ) (m : Service S) → IsValid m → IsValid (add_device t m).1
  unfolding add_device
  add_device-IsValid t m v = elim (Option-cases (find_device t m.devices)) [
    | inl new ↦
        rw (new, add_device)
          (record {
            distinct = put-Distinct t _ m.devices v.distinct;
            counted = omega (
              arith,
              v.counted,
              length-put_new t (new_device t) m.devices (find-Absent t m.devices new),
            );
          })
    | inr (d, old) ↦ rw (old, add_device) v
  ]

  -- `remove_device` keeps one device for each type and the count of them, and the type that it was
  -- called for is not registered after it.
  pub remove_device-IsValid :
      (t : ℕ) (m : Service S)
      → IsValid m
      → IsValid (remove_device t m).1 × (check_device t (remove_device t m).1 ≡ false)
  unfolding remove_device check_device
  remove_device-IsValid t m v = elim (Option-cases (find_device t m.devices)) [
    | inl gone ↦ rw (gone, remove_device) (v, rw (gone, check_device) refl)
    | inr (d, here) ↦
        rw (here, remove_device)
          (
            record {
              distinct = erase-Distinct t m.devices v.distinct;
              counted = omega (arith, v.counted, length-erase t d m.devices here);
            },
            rw
                (
                  Absent-find t (erase_device t m.devices)
                      (erase-Absent_self t m.devices v.distinct),
                  check_device,
                )
                refl,
          )
  ]

  -- A notification or its end, or any call of a device, keeps the devices registered and counted.
  pub on_device-IsValid :
      (t : ℕ) (call : World S → ℕ × World S) (m : Service S)
      → IsValid m
      → IsValid (on_device t call m).1
  unfolding on_device
  on_device-IsValid t call m v = elim (Option-cases (find_device t m.devices)) [
    | inl gone ↦ rw (gone, on_device) v
    | inr (d, here) ↦
        let w : World S = record { device = d; timers = m.timers; redis_state = m.redis_state } in
        rw (here, on_device)
          (record {
            distinct = put-Distinct t _ m.devices v.distinct;
            counted = v.counted ∙ sym (length-put_old t (call w).1.device d m.devices here);
          })
  ]
