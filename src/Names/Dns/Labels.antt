-- ===== src/Names/Dns/Labels.antt =====
-- Name comparisons of types.rs, described on the labels of the names with their case folded.
use mathlib.Core.List.{reverse-append, reverse-reverse}
use cryptography.Prelude.{
  suc, ◌≤◌, ◌<◌, ◌≡◌, refl, sym, ap, ◌∙◌, ◌↔◌, inl, inr, true, List, [], ◌∷◌, ◌++◌, map, reverse,
  arith, length, and-left, and-right, and-intro, ltb→lt, lt→ltb, leb→le, le→leb, map-reverse,
}
use cryptography.Str.{Str, lowercase, split}
use cryptography.Str.Labels.{
  weight, weight-split, weight-reverse, weight-map-lowercase, eq_ignore_ascii_case_iff,
  zip_all-prefix, prefix-zip_all, zip_all-prefix_right, split-lowercase, split-injective,
}
use cryptography.Names.Dns.{
  DnsName, DnsConstraint, rlabels, eq, is_subdomain_of, constraint_matches,
}

-- The labels, from the most specific one to the top-level domain, in lower case.
abbrev pub labels : DnsName → List Str
labels name = map lowercase (split b'.' name.value)

folded-rlabels : (n : DnsName) → map lowercase (rlabels n) ≡ reverse (labels n)
unfolding rlabels
folded-rlabels n = map-reverse lowercase (split b'.' n.value)

weight-labels : (n : DnsName) → weight (map lowercase (rlabels n)) ≡ suc (length n.value)
unfolding rlabels
weight-labels n =
    weight-map-lowercase (rlabels n)
    ∙ weight-reverse (split b'.' n.value)
    ∙ weight-split b'.' n.value

weight-append_le : (ls ms : List Str) → weight ls ≤ weight (ls ++ ms)
weight-append_le [] ms = omega arith
weight-append_le (l ∷ ls) ms = omega (arith, weight-append_le ls ms)

weight-append_lt : (ls : List Str) (q : Str) (qs : List Str) → weight ls < weight (ls ++ q ∷ qs)
weight-append_lt [] q qs = omega arith
weight-append_lt (l ∷ ls) q qs = omega (arith, weight-append_lt ls q qs)

-- Between reversed labels a prefix is what a suffix is between labels.
to_suffix :
    (a b : DnsName) (ps : List Str)
    → map lowercase (rlabels a) ≡ map lowercase (rlabels b) ++ ps
    → labels a ≡ reverse ps ++ labels b
to_suffix a b ps h =
    sym (reverse-reverse (labels a))
    ∙ ap reverse (sym (folded-rlabels a) ∙ h ∙ ap (λ t. t ++ ps) (folded-rlabels b))
    ∙ reverse-append (reverse (labels b)) ps
    ∙ ap (λ t. reverse ps ++ t) (reverse-reverse (labels b))

of_suffix :
    (a b : DnsName) (ps : List Str)
    → labels a ≡ ps ++ labels b
    → map lowercase (rlabels a) ≡ map lowercase (rlabels b) ++ reverse ps
of_suffix a b ps h =
    folded-rlabels a
    ∙ ap reverse h
    ∙ reverse-append ps (labels b)
    ∙ ap (λ t. t ++ reverse ps) (sym (folded-rlabels b))

length-le-weight :
    (a b : DnsName) (ps : List Str)
    → map lowercase (rlabels a) ≡ map lowercase (rlabels b) ++ ps
    → length b.value ≤ length a.value
length-le-weight a b ps h = omega (
  arith,
  weight-append_le (map lowercase (rlabels b)) ps,
  ap weight h,
  weight-labels a,
  weight-labels b,
)

length-lt-weight :
    (a b : DnsName) (q : Str) (qs : List Str)
    → map lowercase (rlabels a) ≡ map lowercase (rlabels b) ++ q ∷ qs
    → length b.value < length a.value
length-lt-weight a b q qs h = omega (
  arith,
  weight-append_lt (map lowercase (rlabels b)) q qs,
  ap weight h,
  weight-labels a,
  weight-labels b,
)

constraint_matches_only :
    (c : DnsConstraint) (n : DnsName)
    → constraint_matches c n ≡ true
    → (ps : List Str) × (labels n ≡ ps ++ labels c.name)
unfolding constraint_matches
constraint_matches_only c n h =
    elim (zip_all-prefix (rlabels c.name) (rlabels n) (and-right _ _ h)) [
      | inl r ↦ (reverse r.0, to_suffix n c.name r.0 r.1)
      | inr r ↦
          let longer = leb→le (length c.name.value) (length n.value) (and-left _ _ h) in
          absurd (omega (arith, length-lt-weight c.name n r.0 r.1 r.2))
    ]

constraint_matches_whenever :
    (c : DnsConstraint) (n : DnsName)
    → (ps : List Str) × (labels n ≡ ps ++ labels c.name)
    → constraint_matches c n ≡ true
unfolding constraint_matches
constraint_matches_whenever c n (ps, h) =
    let e = of_suffix n c.name ps h in
    and-intro _ _ (le→leb _ _ (length-le-weight n c.name (reverse ps) e))
      (prefix-zip_all (rlabels c.name) (rlabels n) (reverse ps) e)

-- A constraint matches a name if and only if the name's labels are the constraint's labels with
-- zero or more labels added on the left, up to ASCII case.
pub constraint_matches_iff :
    (c : DnsConstraint) (n : DnsName)
    → (constraint_matches c n ≡ true) ↔ ((ps : List Str) × (labels n ≡ ps ++ labels c.name))
constraint_matches_iff c n = (constraint_matches_only c n, constraint_matches_whenever c n)

reverse-ne-nil :
    (p : Str) (ps : List Str) → (q : Str) × (qs : List Str) × (reverse (p ∷ ps) ≡ q ∷ qs)
reverse-ne-nil p ps =
    elim (reverse (p ∷ ps))
        as (λ l. reverse (p ∷ ps) ≡ l → (q : Str) × (qs : List Str) × (reverse (p ∷ ps) ≡ q ∷ qs)) [
          | [] ↦ λ e. cc (sym (reverse-reverse (p ∷ ps)) ∙ ap reverse e)
          | q ∷ qs ↦ λ e. (q, qs, e)
        ]
      refl

is_subdomain_of_only :
    (a b : DnsName)
    → is_subdomain_of a b ≡ true
    → (p : Str) × (ps : List Str) × (labels a ≡ (p ∷ ps) ++ labels b)
unfolding is_subdomain_of
is_subdomain_of_only a b h =
    let longer = ltb→lt (length b.value) (length a.value) (and-left _ _ h) in
    elim (zip_all-prefix (rlabels a) (rlabels b) (and-right _ _ h)) [
      | inl r ↦ absurd (omega (arith, length-le-weight b a r.0 r.1))
      | inr r ↦
          let (q, qs, e) = reverse-ne-nil r.0 r.1 in
          (q, qs, to_suffix a b (r.0 ∷ r.1) r.2 ∙ ap (λ t. t ++ labels b) e)
    ]

is_subdomain_of_whenever :
    (a b : DnsName)
    → (p : Str) × (ps : List Str) × (labels a ≡ (p ∷ ps) ++ labels b)
    → is_subdomain_of a b ≡ true
unfolding is_subdomain_of
is_subdomain_of_whenever a b (p, ps, h) =
    let e = of_suffix a b (p ∷ ps) h in
    let (q, qs, r) = reverse-ne-nil p ps in
    and-intro _ _
      (lt→ltb _ _ (length-lt-weight a b q qs (e ∙ ap (λ t. map lowercase (rlabels b) ++ t) r)))
      (zip_all-prefix_right (rlabels a) (rlabels b) (reverse (p ∷ ps)) e)

-- A name is a subdomain of another if and only if its labels are the other's with at least one
-- label added on the left, up to ASCII case.
pub is_subdomain_of_iff :
    (a b : DnsName)
    → (is_subdomain_of a b ≡ true)
      ↔ ((p : Str) × (ps : List Str) × (labels a ≡ (p ∷ ps) ++ labels b))
is_subdomain_of_iff a b = (is_subdomain_of_only a b, is_subdomain_of_whenever a b)

eq_only : (a b : DnsName) → eq a b ≡ true → labels a ≡ labels b
unfolding eq
eq_only a b h =
    sym (split-lowercase a.value)
    ∙ ap (split b'.') ((eq_ignore_ascii_case_iff a.value b.value).0 h)
    ∙ split-lowercase b.value

eq_whenever : (a b : DnsName) → labels a ≡ labels b → eq a b ≡ true
unfolding eq
eq_whenever a b h = (eq_ignore_ascii_case_iff a.value b.value).1 (
    split-injective b'.' (lowercase a.value) (lowercase b.value)
      (split-lowercase a.value ∙ h ∙ sym (split-lowercase b.value)))

-- Two names are equal if and only if they have the same labels, up to ASCII case.
pub eq_iff : (a b : DnsName) → (eq a b ≡ true) ↔ (labels a ≡ labels b)
eq_iff a b = (eq_only a b, eq_whenever a b)
