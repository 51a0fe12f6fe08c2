-- ===== src/Ddc/Find.antt =====
-- src/ddcci.c, `cut_prefix` and `ddcci_find_i2c`: the i2c bus of a display connector.
-- What the directories hold, `atoi`, and the numbers ENOENT and ENODEV are parameters.
use spicy_kvm.Prelude.{
  ℕ, ◌≡◌, ◌≢◌, refl, Option, none, some, List, [], ◌∷◌, ◌++◌, ◌==◌, ◌⊎◌, inl, inr, if◌then◌else◌, ℤ,
  Option-cases, arith,
}
use mathlib.Core.List.{Memᴰ}
use spicy_kvm.Ddc.Bus.{Rc, success, errno}

unfoldable pub cut_prefix : List ℕ → List ℕ → Option (List ℕ)
cut_prefix s [] = some s
cut_prefix [] (p ∷ ps) = none
cut_prefix (c ∷ s) (p ∷ ps) = if p == c then cut_prefix s ps else none

-- "i2c-"
abbrev pub i2c_prefix : List ℕ
i2c_prefix = b'i' ∷ b'2' ∷ b'c' ∷ b'-' ∷ []

-- What `opendir` and `readdir` give: an errno, or the names of the entries.
pub data Listing : Type 0 where
  missing : ℕ → Listing
  entries : List (List ℕ) → Listing

-- The loop over the entries.
unfoldable pub first_i2c : List (List ℕ) → Option (List ℕ)
first_i2c [] = none
first_i2c (name ∷ names) = elim (cut_prefix name i2c_prefix) [
  | some s ↦ some s
  | none ↦ first_i2c names
]

-- The result, the number that is found, and how many directory streams are left open.
pub record Found : Type 0 where
  pub rc : Rc
  pub i2c : Option ℤ
  pub streams : ℕ

module _ (atoi : List ℕ → ℤ) (enoent enodev : ℕ) where
  abbrev nothing : ℕ → Found
  nothing e = record { rc = errno e; i2c = none; streams = 0 }

  abbrev found : List ℕ → Found
  found s = record { rc = success; i2c = some (atoi s); streams = 1 }

  -- The second directory, "ddc/i2c-dev".
  find_in_ddc : Listing → Found
  find_in_ddc (missing e) = nothing (if e == enoent then enodev else e)
  find_in_ddc (entries names) = elim (first_i2c names) [ some s ↦ found s | none ↦ nothing enodev ]

  unfoldable pub ddcci_find_i2c : Listing → Listing → Found
  unfolding find_in_ddc
  ddcci_find_i2c (missing e) ddc = nothing e
  ddcci_find_i2c (entries names) ddc = elim (first_i2c names) [
    | some s ↦ found s
    | none ↦ find_in_ddc ddc
  ]

-- `cut_prefix` gives what follows the prefix, exactly where the text begins with it.
cut_prefix_lem :
    (s pfx r : List ℕ)
    → (cut_prefix s pfx ≡ some r → s ≡ pfx ++ r) × (s ≡ pfx ++ r → cut_prefix s pfx ≡ some r)
unfolding cut_prefix
cut_prefix_lem s [] r = ((λ e. cc), λ e. cc)
cut_prefix_lem [] (p ∷ ps) r = ((λ e. cc), λ e. cc)
cut_prefix_lem (c ∷ s) (p ∷ ps) r =
    ((λ e. ground (arith, cut_prefix_lem s ps r)), λ e. ground (arith, cut_prefix_lem s ps r))

first_i2c-Memᴰ :
    (names : List (List ℕ)) (s : List ℕ) → first_i2c names ≡ some s → Memᴰ (i2c_prefix ++ s) names
unfolding first_i2c
first_i2c-Memᴰ [] s e = cc
first_i2c-Memᴰ (name ∷ names) s e = elim (Option-cases (cut_prefix name i2c_prefix)) [
  | inl e' ↦ Memᴰ.tail (first_i2c-Memᴰ names s (rw (e', first_i2c) at e))
  | inr (s', e') ↦ Memᴰ.head (
      let same : some s' ≡ some s = rw (e', first_i2c) at e in
      cc ((cut_prefix_lem name i2c_prefix s').0 e'))
]

abbrev pub Holds : List ℕ → Listing → Type 0
Holds name (missing e) = ⊥
Holds name (entries names) = Memᴰ name names

-- A name is an entry of one of the two directories.
abbrev pub Listed : List ℕ → Listing → Listing → Type 0
Listed name drm ddc = Holds name drm ⊎ Holds name ddc

abbrev Result : (List ℕ → ℤ) → Found → Listing → Listing → Type 0
Result atoi f drm ddc =
    ((f.rc ≡ success)
      × (f.streams ≡ 1)
      × ((s : List ℕ) × (f.i2c ≡ some (atoi s)) × Listed (i2c_prefix ++ s) drm ddc))
    ⊎ ((f.rc ≢ success) × (f.streams ≡ 0) × (f.i2c ≡ none))

in_ddc :
    (atoi : List ℕ → ℤ) (enoent enodev : ℕ) (ddc drm : Listing)
    → Result atoi (find_in_ddc atoi enoent enodev ddc) drm ddc
unfolding find_in_ddc
in_ddc atoi enoent enodev (missing e) drm = inr ((λ h. cc), refl, refl)
in_ddc atoi enoent enodev (entries names) drm = elim (Option-cases (first_i2c names)) [
  | inr (s, e) ↦ rw (e, find_in_ddc) (inl (refl, refl, (s, refl, inr (first_i2c-Memᴰ names s e))))
  | inl e ↦ rw (e, find_in_ddc) (inr ((λ h. cc), refl, refl))
]

-- Either a number is found, that of an entry of one of the directories whose name begins with
-- "i2c-", and one directory stream stays open; or there is an error, no number, and no open stream.
pub ddcci_find_i2c_lem :
    (atoi : List ℕ → ℤ) (enoent enodev : ℕ) (drm ddc : Listing)
    → let f = ddcci_find_i2c atoi enoent enodev drm ddc in
      ((f.rc ≡ success)
        × (f.streams ≡ 1)
        × ((s : List ℕ) × (f.i2c ≡ some (atoi s)) × Listed (i2c_prefix ++ s) drm ddc))
      ⊎ ((f.rc ≢ success) × (f.streams ≡ 0) × (f.i2c ≡ none))
unfolding ddcci_find_i2c
ddcci_find_i2c_lem atoi enoent enodev (missing e) ddc = inr ((λ h. cc), refl, refl)
ddcci_find_i2c_lem atoi enoent enodev (entries names) ddc = elim (Option-cases (first_i2c names)) [
  | inr (s, e) ↦
      rw (e, ddcci_find_i2c) (inl (refl, refl, (s, refl, inl (first_i2c-Memᴰ names s e))))
  | inl e ↦ rw (e, ddcci_find_i2c) (in_ddc atoi enoent enodev ddc (entries names))
]
