-- ===== src/Isofs/Names/Laws.antt =====
-- How a path is split into its folder and its name.
use adr_bubble_booter_oss.Prelude.{
  ℕ, ◌-◌, ◌+◌, ◌<◌, ◌≡◌, ◌≢◌, ◌⊎◌, inl, inr, Bool-cases, ◌==◌, true, refl, arith, List, [], ◌∷◌,
  ◌++◌, false, ltb, length, take, some, length-append, append_assoc, take-append_exact, ap, sym,
  ◌∙◌,
}
use adr_bubble_booter_oss.Bubble.Location.{Free, strrchr-append}
use adr_bubble_booter_oss.Isofs.{done}
use adr_bubble_booter_oss.Isofs.Names.{
  version_follows, normalize_name, strip_slash, skip_root, parts, split_path, get_path_and_name,
}

strip_slash-cons :
    (c : ℕ) (s t : List ℕ) → strip_slash s ≡ some t → strip_slash (c ∷ s) ≡ some (c ∷ t)
unfolding strip_slash
strip_slash-cons c [] t h = cc
strip_slash-cons c (d ∷ s) t h = rw (strip_slash, h) refl

strip_slash-Free :
    (s : List ℕ) (c : ℕ) (name : List ℕ)
    → Free b'/' (c ∷ name)
    → strip_slash (s ++ (c ∷ name)) ≡ some (s ++ (c ∷ name))
unfolding strip_slash
strip_slash-Free [] c [] h = ground (arith, h.0)
strip_slash-Free [] c (d ∷ name) h =
    strip_slash-cons c (d ∷ name) (d ∷ name) (strip_slash-Free [] d name h.1)
strip_slash-Free (x ∷ s) c name h =
    strip_slash-cons x (s ++ (c ∷ name)) (s ++ (c ∷ name)) (strip_slash-Free s c name h)

strip_slash-append : (s : List ℕ) → strip_slash (s ++ (b'/' ∷ [])) ≡ some s
unfolding strip_slash
strip_slash-append [] = refl
strip_slash-append (x ∷ s) = strip_slash-cons x (s ++ (b'/' ∷ [])) s (strip_slash-append s)

split_path-append :
    (folder name : List ℕ)
    → Free b'/' name
    → length name < 32
    → split_path (folder ++ (b'/' ∷ name))
      ≡ parts (skip_root (folder ++ (b'/' ∷ []))) (normalize_name name)
unfolding split_path
split_path-append folder name free short =
    let full = folder ++ (b'/' ∷ name) in
    let n : length full - length (b'/' ∷ name) + 1 ≡ length folder + 1 =
      omega (arith, length-append folder (b'/' ∷ name)) in
    let fits : ltb 32 (length name + 1) ≡ false = ground arith in
    let cut : take (length folder + 1) full ≡ folder ++ (b'/' ∷ []) =
      ap (take (length folder + 1)) (sym (append_assoc folder (b'/' ∷ []) name))
      ∙ take-append_exact (folder ++ (b'/' ∷ [])) name (length folder + 1)
          (length-append folder (b'/' ∷ [])) in
    rw (split_path, strrchr-append b'/' folder name free, fits, n, cut) refl

-- The text without a slash at its front, where one stands there.
abbrev pub IsSkipped : List ℕ → List ℕ → Type 0
IsSkipped text rest = (text ≡ b'/' ∷ rest) ⊎ ((text ≡ rest) × ((s : List ℕ) → text ≢ b'/' ∷ s))

abbrev pub HasNoVersion : List ℕ → Type 0
HasNoVersion text = (a b : List ℕ) → text ≢ a ++ (b';' ∷ b'1' ∷ b)

-- The text before its first ";1", or all of it where there is none.
abbrev pub IsCut : List ℕ → List ℕ → Type 0
IsCut text name =
    HasNoVersion name × ((text ≡ name) ⊎ ((b : List ℕ) × (text ≡ name ++ (b';' ∷ b'1' ∷ b))))

skip_root-IsSkipped : (text : List ℕ) → IsSkipped text (skip_root text)
skip_root-IsSkipped [] = inr (refl, λ s e. cc)
skip_root-IsSkipped (c ∷ text) = elim (Bool-cases (c == b'/')) [
  | inl e ↦ rw e (inl (let same : c ≡ b'/' = ground arith in rw same refl))
  | inr e ↦ rw e (inr (refl, λ s h. grind arith))
]

abbrev NotVersion : List ℕ → Type 0
NotVersion s = (b : List ℕ) → s ≢ b';' ∷ b'1' ∷ b

version_cases :
    (s : List ℕ)
    → ((b : List ℕ) × (s ≡ b';' ∷ b'1' ∷ b) × (version_follows s ≡ true))
      ⊎ ((version_follows s ≡ false) × NotVersion s)
unfolding version_follows
version_cases [] = inr (refl, λ b e. cc)
version_cases (c ∷ []) = inr (refl, λ b e. grind arith)
version_cases (c ∷ d ∷ s) = elim (Bool-cases (c == b';')) [
  | inl e ↦ elim (Bool-cases (d == b'1')) [
    | inl f ↦
        let c_is : c ≡ b';' = ground arith in
        let d_is : d ≡ b'1' = ground arith in inl (s, rw (c_is, d_is) refl, rw (e, f) refl)
    | inr f ↦ inr (rw (e, f) refl, λ b h. grind arith)
  ]
  | inr e ↦ inr (rw e refl, λ b h. grind arith)
]

HasNoVersion-nil : HasNoVersion []
HasNoVersion-nil [] b e = cc
HasNoVersion-nil (x ∷ a) b e = cc

HasNoVersion-cons :
    (c : ℕ) (s t : List ℕ)
    → (s ≡ t) ⊎ ((b : List ℕ) × (s ≡ t ++ (b';' ∷ b'1' ∷ b)))
    → NotVersion (c ∷ s)
    → HasNoVersion t
    → HasNoVersion (c ∷ t)
HasNoVersion-cons c s t (inl e) plain h [] b q = plain b (rw e q)
HasNoVersion-cons c s t (inr (d, e)) plain h [] b q =
    let t_is : t ≡ b'1' ∷ b = cc in
    let c_is : c ≡ b';' = cc in plain (b ++ (b';' ∷ b'1' ∷ d)) (rw (e, t_is, c_is) refl)
HasNoVersion-cons c s t whole plain h (x ∷ a) b q = h a b cc

normalize_name-IsCut : (text : List ℕ) → IsCut text (normalize_name text)
unfolding normalize_name
normalize_name-IsCut [] = (HasNoVersion-nil, inl refl)
normalize_name-IsCut (c ∷ s) =
    let (absent, whole) = normalize_name-IsCut s in
    elim (version_cases (c ∷ s)) [
      | inl (b, e, v) ↦ rw v (HasNoVersion-nil, inr (b, e))
      | inr (v, plain) ↦ rw v (
        HasNoVersion-cons c s (normalize_name s) whole plain absent,
        elim whole [ inl e ↦ inl (ap (◌∷◌ c) e) | inr (b, e) ↦ inr (b, ap (◌∷◌ c) e) ],
      )
    ]

-- A path of a folder, a slash, and a name of 1 to 31 bytes without a slash is split there, with or
-- without a further slash behind it: the folder keeps its slash and loses one at its front, and the
-- name is cut at its first ";1".
pub get_path_and_name_lem :
    (folder : List ℕ) (c : ℕ) (name : List ℕ)
    → Free b'/' (c ∷ name)
    → length (c ∷ name) < 32
    → (path : List ℕ) × (file : List ℕ) × IsSkipped (folder ++ (b'/' ∷ [])) path
      × IsCut (c ∷ name) file
      × (get_path_and_name (folder ++ (b'/' ∷ (c ∷ name))) ≡ done (parts path file))
      × (get_path_and_name ((folder ++ (b'/' ∷ (c ∷ name))) ++ (b'/' ∷ []))
          ≡ done (parts path file))
unfolding get_path_and_name
get_path_and_name_lem folder c name free short =
    let full = folder ++ (b'/' ∷ (c ∷ name)) in
    let split = split_path-append folder (c ∷ name) free short in
    let keep : strip_slash full ≡ some full =
      let e = append_assoc folder (b'/' ∷ []) (c ∷ name) in
      rw (← e) (strip_slash-Free (folder ++ (b'/' ∷ [])) c name free) in
    (
      skip_root (folder ++ (b'/' ∷ [])),
      normalize_name (c ∷ name),
      skip_root-IsSkipped (folder ++ (b'/' ∷ [])),
      normalize_name-IsCut (c ∷ name),
      rw (get_path_and_name, keep, split) refl,
      rw (get_path_and_name, strip_slash-append full, split) refl,
    )
