-- ===== src/Names/Dns/Valid.antt =====
-- Which strings `DNSName::new` accepts, the parent of a name, and wildcard patterns.
use mathlib.Core.List.{tail-eq_of_cons-eq}
use cryptography.Prelude.{
  ℕ, ◌≤◌, ◌<◌, ◌≡◌, ◌≢◌, refl, sym, ap, ◌∙◌, ◌↔◌, inl, inr, Bool, true, false, ◌||◌, none, some,
  List, [], ◌∷◌, ◌++◌, map, arith, ◌==◌, if◌then◌else◌, length, all, All, Bool-cases, Option-cases,
  and-left, and-right, and-intro, length-append, le→ltb,
}
use cryptography.Str.{
  Str, is_ascii, is_ascii_alphanumeric, lowercase, split, split_once, cons_first,
}
use cryptography.Str.Labels.{
  split-split_once, split-split_once-none, split_once-append, split-ne-nil,
}
use cryptography.Names.Ia5.{Ia5}
use cryptography.Names.Dns.{
  DnsName, DnsPattern, exact, wildcard, DnsConstraint, is_label, new, parent, eq, pattern_matches,
  inner_name, constraint_matches,
}
use cryptography.Names.Dns.Label.{IsLabel, labels_only, labels_whenever}
use cryptography.Names.Dns.Labels.{labels, eq_iff, constraint_matches_iff}

char_ascii : (x : ℕ) → (is_ascii_alphanumeric x || x == b'-') ≡ true → is_ascii x ≡ true
unfolding is_ascii_alphanumeric
char_ascii x h = ground arith

chars_ascii :
    (l : Str) → all (λ c. is_ascii_alphanumeric c || c == b'-') l ≡ true → all is_ascii l ≡ true
chars_ascii [] h = refl
chars_ascii (x ∷ xs) h =
    and-intro _ _ (char_ascii x (and-left _ _ h)) (chars_ascii xs (and-right _ _ h))

else_part : (a b : Bool) → (if a then false else b) ≡ true → b ≡ true
else_part a b h = ground arith

label_ascii : (l : Str) → is_label l ≡ true → all is_ascii l ≡ true
unfolding is_label
label_ascii l h = chars_ascii l (else_part _ _ h)

dot_ascii : (x : ℕ) → (x == b'.') ≡ true → is_ascii x ≡ true
dot_ascii x h = ground arith

first_ascii :
    (x : ℕ) (ls : List Str)
    → ls ≢ []
    → all (all is_ascii) (cons_first x ls) ≡ true
    → (is_ascii x ≡ true) × (all (all is_ascii) ls ≡ true)
first_ascii x [] n h = absurd (n refl)
first_ascii x (l ∷ ls) n h = ground (arith, h)

split_ascii : (v : Str) → all (all is_ascii) (split b'.' v) ≡ true → all is_ascii v ≡ true
unfolding split
split_ascii [] h = refl
split_ascii (x ∷ xs) h = elim (Bool-cases (x == b'.')) [
  | inl e ↦ and-intro _ _ (dot_ascii x e) (split_ascii xs (rw e at h))
  | inr e ↦
      let (f, r) = first_ascii x (split b'.' xs) (split-ne-nil b'.' xs) (rw e at h) in
      and-intro _ _ f (split_ascii xs r)
]

labels_ascii : (ls : List Str) → all is_label ls ≡ true → all (all is_ascii) ls ≡ true
labels_ascii [] h = refl
labels_ascii (l ∷ ls) h =
    and-intro _ _ (label_ascii l (and-left _ _ h)) (labels_ascii ls (and-right _ _ h))

ascii_right : (a b : Str) → all is_ascii (a ++ b) ≡ true → all is_ascii b ≡ true
ascii_right [] b h = h
ascii_right (x ∷ a) b h = ascii_right a b (and-right _ _ h)

-- The strings that make a name: at most 253 bytes, and labels with a dot between each two.
pub record IsDomain (value : Str) : Type 0 where
  pub some_byte : 0 < length value
  pub max_length : length value ≤ 253
  pub all_labels : All IsLabel (split b'.' value)

label_some_byte : (b : Str) → all is_label (split b'.' b) ≡ true → 0 < length b
unfolding split is_label
label_some_byte [] h = cc
label_some_byte (x ∷ b) h = omega arith

module _ ⦃ia5 : Ia5⦄ where
  abbrev pub IsValid : DnsName → Type 0
  IsValid n = new n.value ≡ some n

  new-IsDomain : (v : Str) (n : DnsName) → new v ≡ some n → (n ≡ record { value = v }) × IsDomain v
  unfolding new
  new-IsDomain [] n h = cc
  new-IsDomain (x ∷ v) n h = (
    ground (arith, h),
    record {
      some_byte = omega arith;
      max_length = ground (arith, h);
      all_labels = labels_only (split b'.' (x ∷ v)) (ground (arith, h));
    },
  )

  domain-accepts : (v : Str) → IsDomain v → ia5.accepts v ≡ true
  domain-accepts v d =
      ia5.accepts_ascii v
      ∙ split_ascii v (labels_ascii (split b'.' v) (labels_whenever (split b'.' v) d.all_labels))

  IsDomain-new : (v : Str) → IsDomain v → new v ≡ some (record { value = v })
  unfolding new
  IsDomain-new [] d = absurd (omega (arith, d.some_byte))
  IsDomain-new (x ∷ v) d = rw (
    le→ltb 253 (length (x ∷ v)) d.max_length,
    labels_whenever (split b'.' (x ∷ v)) d.all_labels,
    domain-accepts (x ∷ v) d,
  )

  -- A string makes a name if and only if it has 1 to 253 bytes and each piece between its dots has 1
  -- to 63 bytes, all of them letters, digits and hyphens, with no hyphen at its start or end; the name
  -- then holds the string.
  pub new_iff :
      (v : Str) (n : DnsName) → (new v ≡ some n) ↔ ((n ≡ record { value = v }) × IsDomain v)
  new_iff v n = (new-IsDomain v n, λ h. rw h.0 (IsDomain-new v h.1))

  parent-IsDomain : (v a b : Str) → IsDomain v → split_once b'.' v ≡ some (a, b) → IsDomain b
  parent-IsDomain v a b d h =
      let pieces : split b'.' v ≡ a ∷ split b'.' b = split-split_once b'.' v a b h in
      let tests : All IsLabel (a ∷ split b'.' b) = rw pieces at d.all_labels in
      record {
        some_byte = label_some_byte b (labels_whenever (split b'.' b) tests.1);
        max_length = omega (
          arith,
          d.max_length,
          ap length (split_once-append b'.' v a b h),
          length-append a (b'.' ∷ b),
        );
        all_labels = tests.1;
      }

  -- The parent of a valid name is valid, and its labels are the name's without the first.
  parent-labels :
      (n p : DnsName)
      → IsValid n
      → parent n ≡ some p
      → IsValid p × ((l : Str) × (labels n ≡ l ∷ labels p))
  unfolding parent
  parent-labels n p v h = elim (Option-cases (split_once b'.' n.value)) [
    | inl e ↦ cc (rw e at h)
    | inr r ↦
        let d = (new_iff n.value n).0 v in
        let q : new r.0.1 ≡ some p = rw r.1 at h in
        let e = ((new_iff r.0.1 p).0 q).0 in
        let pieces = split-split_once b'.' n.value r.0.0 r.0.1 r.1 in
        (
          rw e (IsDomain-new r.0.1 (parent-IsDomain n.value r.0.0 r.0.1 d.1 r.1)),
          (lowercase r.0.0, rw e (ap (map lowercase) pieces)),
        )
  ]

  -- A valid name has no parent only if it is a single label.
  parent-none : (n : DnsName) → IsValid n → parent n ≡ none → (l : Str) × (labels n ≡ l ∷ [])
  unfolding parent
  parent-none n v h = elim (Option-cases (split_once b'.' n.value)) [
    | inl e ↦ (lowercase n.value, ap (map lowercase) (split-split_once-none b'.' n.value e))
    | inr r ↦
        let d = (new_iff n.value n).0 v in
        cc (IsDomain-new r.0.1 (parent-IsDomain n.value r.0.0 r.0.1 d.1 r.1), rw r.1 at h)
  ]

  labels-ne-nil : (n : DnsName) → labels n ≢ []
  labels-ne-nil n h = go (split b'.' n.value) (split-ne-nil b'.' n.value) h
    where
      go : (ls : List Str) → ls ≢ [] → map lowercase ls ≢ []
      go [] ne e = ne refl
      go (l ∷ ls) ne e = cc

  wildcard_only :
      (p n : DnsName)
      → IsValid n
      → pattern_matches (wildcard p) n ≡ true
      → (l : Str) × (labels n ≡ l ∷ labels p)
  unfolding pattern_matches
  wildcard_only p n v h = elim (Option-cases (parent n)) [
    | inl e ↦ cc (rw (e, pattern_matches) at h)
    | inr r ↦
        let q : eq p r.0 ≡ true = rw (r.1, pattern_matches) at h in
        let k = (parent-labels n r.0 v r.1).1 in
        (k.0, k.1 ∙ ap (λ t. k.0 ∷ t) (sym ((eq_iff p r.0).0 q)))
  ]

  wildcard_whenever :
      (p n : DnsName)
      → IsValid n
      → (l : Str) × (labels n ≡ l ∷ labels p)
      → pattern_matches (wildcard p) n ≡ true
  unfolding pattern_matches
  wildcard_whenever p n v (l, h) = elim (Option-cases (parent n)) [
    | inl e ↦ absurd (labels-ne-nil p (tail-eq_of_cons-eq (sym h ∙ (parent-none n v e).1)))
    | inr r ↦
        rw (r.1, pattern_matches)
          ((eq_iff p r.0).1 (tail-eq_of_cons-eq (sym h ∙ (parent-labels n r.0 v r.1).1.1)))
  ]

  -- A wildcard pattern matches a valid name if and only if the name's labels are the pattern's
  -- with exactly one label added on the left, up to ASCII case.
  pub wildcard_iff :
      (p n : DnsName)
      → IsValid n
      → (pattern_matches (wildcard p) n ≡ true) ↔ ((l : Str) × (labels n ≡ l ∷ labels p))
  wildcard_iff p n v = (wildcard_only p n v, wildcard_whenever p n v)

  -- A constraint that matches the inner name of a pattern matches each valid name that the
  -- pattern matches.
  pub inner_name_sound :
      (c : DnsConstraint) (pat : DnsPattern) (n : DnsName)
      → IsValid n
      → constraint_matches c (inner_name pat) ≡ true
      → pattern_matches pat n ≡ true
      → constraint_matches c n ≡ true
  unfolding inner_name
  inner_name_sound c (exact p) n v h m =
      let (ps, e) = (constraint_matches_iff c p).0 h in
      (constraint_matches_iff c n).1 (ps, sym ((eq_iff p n).0 (unfold pattern_matches in m)) ∙ e)
  inner_name_sound c (wildcard p) n v h m =
      let (ps, e) = (constraint_matches_iff c p).0 h in
      let (l, k) = wildcard_only p n v m in
      (constraint_matches_iff c n).1 (l ∷ ps, k ∙ ap (λ t. l ∷ t) e)
