-- ===== src/Session/Finding.antt =====
-- The enumeration of objects (`EnumCtx` of backend/object.rs, `enum_next_chunk` and `enum_final` of
-- backend/session.rs). Where the handles come from is not modelled.
use nethsm_pkcs.Common.{
  ℕ, zero, suc, ◌+◌, ◌≤◌, ◌≡◌, refl, sym, ap, ◌∙◌, ◌⊎◌, inl, inr, none, some, List, [], ◌∷◌, ◌++◌,
  Result, ok, err, length, get_elem?, drop, length-append, length-drop, arith, Option-cases,
}
use nethsm_pkcs.Errors.{Error, operation_not_initialized}
use nethsm_pkcs.Session.{EnumCtx, Session}
use nethsm_pkcs.Session.Parts.{append_nil, append_assoc}

-- `EnumCtx::new`.
unfoldable pub new : List ℕ → EnumCtx
new handles = record { handles = handles; index = 0 }

unfoldable pub next_chunck : ℕ → EnumCtx → List ℕ × EnumCtx
next_chunck zero c = ([], c)
next_chunck (suc n) c = elim (get_elem? c.handles c.index) [
  | none ↦ ([], c)
  | some handle ↦
      let (rest, c') = next_chunck n (record c { index = c.index + 1 }) in (handle ∷ rest, c')
]

unfoldable pub enum_next_chunk : ℕ → Session → Result Error (List ℕ) × Session
unfolding next_chunck
enum_next_chunk count s = elim s.enum_ctx [
  | none ↦ (err operation_not_initialized, s)
  | some c ↦
      let (handles, c') = next_chunck count c in (ok handles, record s { enum_ctx = some c' })
]

unfoldable pub enum_final : Session → Session
enum_final s = record s { enum_ctx = none }

pub length-next_chunck : (n : ℕ) (c : EnumCtx) → length (next_chunck n c).0 ≤ n
unfolding next_chunck
length-next_chunck zero c = omega arith
length-next_chunck (suc n) c =
    ground (arith, length-next_chunck n (record c { index = c.index + 1 }))

-- The chunks of several calls in a row, joined.
unfoldable pub chunks : List ℕ → EnumCtx → List ℕ × EnumCtx
unfolding next_chunck
chunks [] c = ([], c)
chunks (n ∷ sizes) c =
    let (first, c') = next_chunck n c in let (rest, c'') = chunks sizes c' in (first ++ rest, c'')

abbrev pub sum : List ℕ → ℕ
sum [] = 0
sum (n ∷ sizes) = n + sum sizes

drop-some : (xs : List ℕ) (i h : ℕ) → get_elem? xs i ≡ some h → drop i xs ≡ h ∷ drop (i + 1) xs
drop-some [] i h e = cc
drop-some (x ∷ xs) zero h e = cc
drop-some (x ∷ xs) (suc i) h e =
    let same : suc (i + 1) ≡ suc i + 1 = omega arith in
    drop-some xs i h e ∙ ap (λ (k : ℕ). h ∷ drop k (x ∷ xs)) same

drop-none : (xs : List ℕ) (i : ℕ) → get_elem? xs i ≡ none → length (drop i xs) ≡ 0
drop-none [] i e = omega (arith, length-drop {A = ℕ} i [])
drop-none (x ∷ xs) zero e = cc
drop-none (x ∷ xs) (suc i) e = drop-none xs i e

-- What a chunk is: the next handles, as many as were asked for or all that are left.
abbrev Chunk : ℕ → EnumCtx → List ℕ × EnumCtx → Type 0
Chunk n c r =
    (out : List ℕ) × (i : ℕ) × (r ≡ (out, record c { index = i }))
    × (out ++ drop i c.handles ≡ drop c.index c.handles)
    × ((length out ≡ n) ⊎ (length (drop i c.handles) ≡ 0))

next_some :
    (n h : ℕ) (c : EnumCtx)
    → get_elem? c.handles c.index ≡ some h
    → Chunk n (record c { index = c.index + 1 }) (next_chunck n (record c { index = c.index + 1 }))
    → Chunk (suc n) c (next_chunck (suc n) c)
unfolding next_chunck
next_some n h c e (out, i, r, a, l) = (
  h ∷ out,
  i,
  rw (e, next_chunck) (rw r refl),
  ap (◌∷◌ h) a ∙ sym (drop-some c.handles c.index h e),
  ground (arith, l),
)

next-Chunk : (n : ℕ) (c : EnumCtx) → Chunk n c (next_chunck n c)
unfolding next_chunck
next-Chunk zero c = ([], c.index, refl, refl, inl refl)
next-Chunk (suc n) c = elim (Option-cases (get_elem? c.handles c.index)) [
  | inl e ↦ ([], c.index, rw (e, next_chunck) refl, refl, inr (drop-none c.handles c.index e))
  | inr (h, e) ↦ next_some n h c e (next-Chunk n (record c { index = c.index + 1 }))
]

-- Chunks in a row.
abbrev Chunks : List ℕ → EnumCtx → List ℕ × EnumCtx → Type 0
Chunks sizes c r =
    (i : ℕ) × (r.1 ≡ record c { index = i })
    × (r.0 ++ drop i c.handles ≡ drop c.index c.handles)
    × ((sum sizes ≤ length r.0) ⊎ (length (drop i c.handles) ≡ 0))

chunks_step :
    (n : ℕ) (sizes : List ℕ) (c : EnumCtx)
    → Chunk n c (next_chunck n c)
    → ((k : EnumCtx) → Chunks sizes k (chunks sizes k))
    → Chunks (n ∷ sizes) c (chunks (n ∷ sizes) c)
unfolding chunks
chunks_step n sizes c (out, i, r, a, l) rest =
    let k : EnumCtx = record c { index = i } in
    let (j, s, b, m) = rest k in
    let all : (out ++ (chunks sizes k).0) ++ drop j c.handles ≡ drop c.index c.handles =
      append_assoc out (chunks sizes k).0 (drop j c.handles) ∙ ap (◌++◌ out) b ∙ a in
    rw r (
      j,
      s,
      all,
      omega (
        arith,
        l,
        m,
        length-append out (chunks sizes k).0,
        length-append (chunks sizes k).0 (drop j c.handles),
        ap length b,
      ),
    )

chunks-Chunks : (sizes : List ℕ) (c : EnumCtx) → Chunks sizes c (chunks sizes c)
chunks-Chunks [] c = unfold chunks in (c.index, refl, refl, inl (omega arith))
chunks-Chunks (n ∷ sizes) c = chunks_step n sizes c (next-Chunk n c) (chunks-Chunks sizes)

no_more : (xs : List ℕ) → length xs ≡ 0 → xs ≡ []
no_more [] e = refl
no_more (x ∷ xs) e = absurd (omega arith)

-- Calls of `next_chunck` in a row give each of the handles of a new EnumCtx once and in order,
-- however they are cut into chunks, where the chunk sizes together are at least the number of
-- handles.
pub chunks-new :
    (sizes handles : List ℕ) → length handles ≤ sum sizes → (chunks sizes (new handles)).0 ≡ handles
chunks-new sizes handles h =
    let (i, s, a, l) = chunks-Chunks sizes (new handles) in
    let left : length (drop i handles) ≡ 0 =
      unfold new in
      omega
        (arith, l, length-append (chunks sizes (new handles)).0 (drop i handles), ap length a) in
    sym (append_nil (chunks sizes (new handles)).0)
    ∙ ap (◌++◌ (chunks sizes (new handles)).0) (sym (no_more (drop i handles) left))
    ∙ unfold new in a
