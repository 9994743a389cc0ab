-- ===== src/Live/Space/Laws.antt =====
-- What the estimates of space promise.
use esxi_mover.Prelude.{
  ℕ, ◌+◌, ◌*◌, ◌^◌, ◌≤◌, ◌<◌, ◌≡◌, Option, none, some, List, [], ◌∷◌, All, arith, true, refl,
  Bool-cases, inl, inr,
}
use esxi_mover.Prelude.Text.{Text}
use esxi_mover.Types.{got, Reply-cases, and_then, check_that, Datastore}
use esxi_mover.Esxi.Paths.{datastore_of, usable}
use esxi_mover.Vmdk.{max_int64}
use esxi_mover.Live.Space.{reserve, least_free, delta_free, free_at, lower_of}

-- An accepted estimate is the size with 15% and one GiB more, rounded down by less than 15 bytes,
-- and fits a signed 64-bit integer.
pub reserve_bounds :
    (bytes n : ℕ)
    → reserve bytes ≡ got n
    → (bytes * 115 + 2 ^ 30 * 100 < n * 100 + 1500)
      × (n * 100 ≤ bytes * 115 + 2 ^ 30 * 100)
      × (n ≤ max_int64)
unfolding reserve check_that
reserve_bounds bytes n h = ground arith

-- The datastore of a place has at least `n` bytes free and is usable.
abbrev pub Holds : List Datastore → ℕ → Text → Type 0
Holds ds n p = (d : Datastore) × (datastore_of p ds ≡ some d) × (usable d ≡ true) × (n ≤ d.free)

free_at_lem :
    (o : Option Datastore) (n : ℕ)
    → free_at o ≡ got n
    → (d : Datastore) × (o ≡ some d) × (usable d ≡ true) × (d.free ≡ n)
unfolding free_at check_that
free_at_lem none n h = cc
free_at_lem (some d) n h = elim (Bool-cases (usable d)) [
  | inl u ↦ (d, refl, u, ground arith)
  | inr u ↦ cc (rw u at h)
]

abbrev Below : ℕ → Option ℕ → Type 0
Below n none = Unit
Below n (some m) = n ≤ m

lower_of-Below : (n f : ℕ) (o : Option ℕ) → n ≤ lower_of o f → (n ≤ f) × Below n o
unfolding lower_of
lower_of-Below n f none h = (h, tt)
lower_of-Below n f (some m) h = ground arith

least_free_lem :
    (ds : List Datastore) (o : Option ℕ) (n : ℕ) (ps : List Text)
    → least_free ds o ps ≡ got (some n)
    → All (Holds ds n) ps × Below n o
unfolding least_free
least_free_lem ds none n [] h = (tt, tt)
least_free_lem ds (some m) n [] h = (tt, ground arith)
least_free_lem ds o n (p ∷ ps) h = elim (Reply-cases (free_at (datastore_of p ds))) [
  | inr (e, q) ↦ unfold and_then in cc (rw q at h)
  | inl (f, q) ↦
      let rest : All (Holds ds n) ps × (n ≤ lower_of o f) =
        least_free_lem ds (some (lower_of o f)) n ps (unfold and_then in (rw q at h)) in
      let (le, below) = lower_of-Below n f o rest.1 in
      let (d, e, u, k) = free_at_lem (datastore_of p ds) f q in
      (((d, e, u, omega arith), rest.0), below)
]

-- A free space that the code reports is there on the usable datastore of every place.
pub delta_free_sound :
    (ds : List Datastore) (n : ℕ) (ps : List Text)
    → delta_free ds ps ≡ got (some n)
    → All (Holds ds n) ps
unfolding delta_free
delta_free_sound ds n ps h = (least_free_lem ds none n ps h).0
