-- ===== src/X509/Extensions/Unique.antt =====
-- An accepted set of extensions has each identifier once, and a lookup finds the one that is there.
use mathlib.Core.Bool.{decide_iff}
use mathlib.Core.List.{Memᴰ}
use cryptography.Prelude.{
  ◌≡◌, ◌≢◌, refl, sym, ap, ◌∙◌, ◌↔◌, inl, inr, true, false, Option, none, some, List, [], ◌∷◌,
  arith, any, Bool-cases,
}
use cryptography.Result.{Result, ok, err}
use cryptography.X509.Oid.{Oid}
use cryptography.X509.Certificate.{Extension, Oid-discrete}
use cryptography.X509.Extensions.{
  DuplicateExtensionsError, Extensions, oid_eq, check_unique, with_raw, from_raw_extensions,
  entries, find_extension, get_extension,
}

pub oid_eq_iff : (a b : Oid) → (oid_eq a b ≡ true) ↔ (a ≡ b)
unfolding oid_eq
oid_eq_iff a b = decide_iff (Oid-discrete a b)

-- `oid` is none of the identifiers.
abbrev pub Fresh : Oid → List Oid → Type 0
Fresh oid [] = Unit
Fresh oid (o ∷ os) = (oid ≢ o) × Fresh oid os

-- Each extension's identifier differs from those before it, `seen` among them.
abbrev pub Unique : List Oid → List Extension → Type 0
Unique seen [] = Unit
Unique seen (ext ∷ exts) = Fresh ext.extn_id seen × Unique (ext.extn_id ∷ seen) exts

not_seen : (oid : Oid) (os : List Oid) → any (oid_eq oid) os ≡ false → Fresh oid os
not_seen oid [] h = tt
not_seen oid (o ∷ os) h =
    (λ e. ground (arith, h, (oid_eq_iff oid o).1 e), not_seen oid os (ground (arith, h)))

Fresh-not_seen : (oid : Oid) (os : List Oid) → Fresh oid os → any (oid_eq oid) os ≡ false
Fresh-not_seen oid [] h = refl
Fresh-not_seen oid (o ∷ os) (ne, h) = elim (Bool-cases (oid_eq oid o)) [
  | inl e ↦ absurd (ne ((oid_eq_iff oid o).0 e))
  | inr e ↦ rw e (Fresh-not_seen oid os h)
]

check_unique-Unique :
    (seen : List Oid) (exts : List Extension) → check_unique seen exts ≡ ok tt → Unique seen exts
unfolding check_unique
check_unique-Unique seen [] h = tt
check_unique-Unique seen (ext ∷ exts) h = elim (Bool-cases (any (oid_eq ext.extn_id) seen)) [
  | inl e ↦ cc (rw e at h)
  | inr e ↦ (not_seen ext.extn_id seen e, check_unique-Unique (ext.extn_id ∷ seen) exts (rw e at h))
]

Unique-check_unique :
    (seen : List Oid) (exts : List Extension) → Unique seen exts → check_unique seen exts ≡ ok tt
unfolding check_unique
Unique-check_unique seen [] h = refl
Unique-check_unique seen (ext ∷ exts) (f, h) =
    rw (Fresh-not_seen ext.extn_id seen f) (Unique-check_unique (ext.extn_id ∷ seen) exts h)

from_raw_only :
    (raw_exts : List Extension) (u : Result DuplicateExtensionsError (Unit {0})) (exts : Extensions)
    → check_unique [] raw_exts ≡ u
    → with_raw raw_exts u ≡ ok exts
    → (exts ≡ record { raw = some raw_exts }) × Unique [] raw_exts
unfolding with_raw
from_raw_only raw_exts (ok tt) exts c h = (cc, check_unique-Unique [] raw_exts c)
from_raw_only raw_exts (err e) exts c h = cc

from_raw_extensions_only :
    (raw : Option (List Extension)) (exts : Extensions)
    → from_raw_extensions raw ≡ ok exts
    → (exts ≡ record { raw = raw }) × Unique [] (entries raw)
unfolding from_raw_extensions
from_raw_extensions_only none exts h = (cc, tt)
from_raw_extensions_only (some raw_exts) exts h =
    from_raw_only raw_exts (check_unique [] raw_exts) exts refl h

from_raw_extensions_whenever :
    (raw : Option (List Extension))
    → Unique [] (entries raw)
    → from_raw_extensions raw ≡ ok (record { raw = raw })
unfolding from_raw_extensions with_raw
from_raw_extensions_whenever none h = refl
from_raw_extensions_whenever (some raw_exts) h = rw (Unique-check_unique [] raw_exts h)

-- The extensions of a certificate are accepted if and only if no identifier occurs twice, and they
-- are then kept as they are.
pub from_raw_extensions_iff :
    (raw : Option (List Extension)) (exts : Extensions)
    → (from_raw_extensions raw ≡ ok exts)
      ↔ ((exts ≡ record { raw = raw }) × Unique [] (entries raw))
from_raw_extensions_iff raw exts = (
  from_raw_extensions_only raw exts,
  λ (e, h). from_raw_extensions_whenever raw h ∙ ap ok (sym e),
)

Unique-mem-Fresh :
    (seen : List Oid) (exts : List Extension) (ext : Extension)
    → Unique seen exts
    → Memᴰ ext exts
    → Fresh ext.extn_id seen
Unique-mem-Fresh seen [] ext h m = elim m [ ]
Unique-mem-Fresh seen (x ∷ exts) ext (f, h) (Memᴰ.head e) = rw e f
Unique-mem-Fresh seen (x ∷ exts) ext (f, h) (Memᴰ.tail m) =
    (Unique-mem-Fresh (x.extn_id ∷ seen) exts ext h m).1

find_extension-mem :
    (seen : List Oid) (exts : List Extension) (ext : Extension)
    → Unique seen exts
    → Memᴰ ext exts
    → find_extension ext.extn_id exts ≡ some ext
unfolding find_extension
find_extension-mem seen [] ext h m = elim m [ ]
find_extension-mem seen (x ∷ exts) ext (f, h) (Memᴰ.head e) =
    rw (e, (oid_eq_iff x.extn_id x.extn_id).1 refl) refl
find_extension-mem seen (x ∷ exts) ext (f, h) (Memᴰ.tail m) =
    elim (Bool-cases (oid_eq x.extn_id ext.extn_id)) [
      | inl e ↦ absurd (
          (Unique-mem-Fresh (x.extn_id ∷ seen) exts ext h m).0
            (sym ((oid_eq_iff x.extn_id ext.extn_id).0 e)))
      | inr e ↦ rw e (find_extension-mem (x.extn_id ∷ seen) exts ext h m)
    ]

-- In an accepted set of extensions each one is what a lookup of its identifier returns.
pub get_extension-mem :
    (raw : Option (List Extension)) (exts : Extensions) (ext : Extension)
    → from_raw_extensions raw ≡ ok exts
    → Memᴰ ext (entries raw)
    → get_extension exts ext.extn_id ≡ some ext
unfolding get_extension
get_extension-mem raw exts ext h m =
    let (e, u) = from_raw_extensions_only raw exts h in
    rw e (find_extension-mem [] (entries raw) ext u m)
