-- ===== src/Ccu/Targets/Files.antt =====
-- The file names that src/ccu/target-registry.ts chooses: distinct targets never share a file.
use mathlib.Core.List.{append_assoc}
use ccu_mcp.Prelude.{
  ℕ, ◌+◌, ◌≤◌, String, true, false, ◌≡◌, ◌≢◌, refl, sym, ap, ◌∙◌, inl, inr, List, [], ◌∷◌, ◌++◌,
  arith, length, length-append, codes, ◌===◌, eq_iff, Bool-cases,
}
use ccu_mcp.Ccu.Targets.{Profile, Naming, slug, joined, file_suffix, suffix_of, make_target}

append-end : (a b d e : List ℕ) → length d ≡ length e → a ++ d ≡ b ++ e → d ≡ e
append-end [] [] d e same h = h
append-end [] (y ∷ b) d e same h = absurd (omega (arith, ap length h, length-append (y ∷ b) e))
append-end (x ∷ a) [] d e same h = absurd (omega (arith, ap length h, length-append (x ∷ a) d))
append-end (x ∷ a) (y ∷ b) d e same h = append-end a b d e same (cc)

append-start : (d e x y : List ℕ) → length d ≡ length e → d ++ x ≡ e ++ y → d ≡ e
append-start [] [] x y same h = refl
append-start [] (b ∷ e) x y same h = absurd (omega arith)
append-start (a ∷ d) [] x y same h = absurd (omega arith)
append-start (a ∷ d) (b ∷ e) x y same h =
    let rest : d ≡ e = append-start d e x y (omega arith) (cc) in cc

joined-end : (s d : List ℕ) → (pre : List ℕ) × (joined s d ≡ pre ++ d)
joined-end [] d = ([], refl)
joined-end (c ∷ t) d = ((c ∷ t) ++ b'-' ∷ [], sym (append_assoc (c ∷ t) (b'-' ∷ []) d))

-- A file name ends in the digest of the target's name and ".json", unless the name is "default".
file-end :
    (n : Naming) (base : List ℕ) (p : Profile)
    → p.name === "default" ≡ false
    → (pre : List ℕ) × (base ++ (suffix_of n p ++ codes ".json")
        ≡ pre ++ (n.digest (n.lower p.name) ++ codes ".json"))
unfolding suffix_of file_suffix
file-end n base p named =
    let (pre, e) = joined-end (slug (n.lower p.name)) (n.digest (n.lower p.name)) in
    (base ++ b'.' ∷ pre, rw (named, e) (simp append_assoc))

length-suffix_of :
    (n : Naming) (p : Profile)
    → ((s : String) → length (n.digest s) ≡ 8)
    → p.name === "default" ≡ false
    → 9 ≤ length (suffix_of n p)
unfolding suffix_of file_suffix
length-suffix_of n p eight named =
    let (pre, e) = joined-end (slug (n.lower p.name)) (n.digest (n.lower p.name)) in
    rw (named, e)
      (omega (arith, length-append pre (n.digest (n.lower p.name)), eight (n.lower p.name)))

suffix_of-default : (n : Naming) (p : Profile) → p.name === "default" ≡ true → suffix_of n p ≡ []
unfolding suffix_of
suffix_of-default n p h = rw h refl

length-file : (base s : List ℕ) → length (base ++ (s ++ codes ".json")) ≡ length base + length s + 5
length-file base s =
    omega (arith, length-append base (s ++ codes ".json"), length-append s (codes ".json"))

digests-eq :
    (n : Naming) (base : List ℕ) (p q : Profile)
    → ((s : String) → length (n.digest s) ≡ 8)
    → p.name === "default" ≡ false
    → q.name === "default" ≡ false
    → base ++ (suffix_of n p ++ codes ".json") ≡ base ++ (suffix_of n q ++ codes ".json")
    → n.digest (n.lower p.name) ≡ n.digest (n.lower q.name)
digests-eq n base p q eight np nq same =
    let (a, ea) = file-end n base p np in
    let (b, eb) = file-end n base q nq in
    let d = n.digest (n.lower p.name) in
    let e = n.digest (n.lower q.name) in
    append-start d e (codes ".json") (codes ".json")
      (omega (arith, eight (n.lower p.name), eight (n.lower q.name)))
      (append-end a b (d ++ codes ".json") (e ++ codes ".json")
        (omega (
          arith,
          eight (n.lower p.name),
          eight (n.lower q.name),
          length-append d (codes ".json"),
          length-append e (codes ".json"),
        ))
        (sym ea ∙ same ∙ eb))

-- Two files of one base name: the historical name of "default", or a suffix that ends in the digest.
file-ne :
    (n : Naming) (base : List ℕ) (p q : Profile)
    → ((s : String) → length (n.digest s) ≡ 8)
    → n.digest (n.lower p.name) ≢ n.digest (n.lower q.name)
    → base ++ (suffix_of n p ++ codes ".json") ≢ base ++ (suffix_of n q ++ codes ".json")
file-ne n base p q eight ne same =
    let equal : length (suffix_of n p) ≡ length (suffix_of n q) =
      omega (
        arith,
        ap length same,
        length-file base (suffix_of n p),
        length-file base (suffix_of n q),
      ) in
    elim (Bool-cases (p.name === "default")) [
      | inl dp ↦ elim (Bool-cases (q.name === "default")) [
        | inl dq ↦ ne (
            ap (λ (s : String). n.digest (n.lower s))
              ((eq_iff p.name "default").0 dp ∙ sym ((eq_iff q.name "default").0 dq)))
        | inr nq ↦
            let none_left = ap length (suffix_of-default n p dp) in
            absurd (omega (arith, length-suffix_of n q eight nq))
      ]
      | inr np ↦ elim (Bool-cases (q.name === "default")) [
        | inl dq ↦
            let none_left = ap length (suffix_of-default n q dq) in
            absurd (omega (arith, length-suffix_of n p eight np))
        | inr nq ↦ ne (digests-eq n base p q eight np nq same)
      ]
    ]

-- Two targets whose names have different digests share neither the session file nor the file of the
-- device-type cache, however alike their slugs are ("my-ccu" and "my.ccu"), also where one of them is
-- the profile "default" with the historical names. The digest has eight characters.
pub files_distinct :
    (n : Naming) (p q : Profile)
    → ((s : String) → length (n.digest s) ≡ 8)
    → n.digest (n.lower p.name) ≢ n.digest (n.lower q.name)
    → ((make_target n p).session_file ≢ (make_target n q).session_file)
      × ((make_target n p).device_type_file ≢ (make_target n q).device_type_file)
unfolding make_target
files_distinct n p q eight ne =
    (file-ne n (codes "session") p q eight ne, file-ne n (codes "device-type-cache") p q eight ne)
