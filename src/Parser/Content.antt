-- ===== src/Parser/Content.antt =====
-- The bytes that a `Parser::BufferList` (util/parser.hh) still holds, and `remove_prefix` on them.
use tiny_tcp_over_tun.Common.{
  ℕ, zero, suc, ◌+◌, ◌-◌, min, ◌≤◌, ◌<◌, ◌≡◌, ◌⊎◌, List, [], ◌∷◌, ◌++◌, length, drop, length-append,
  length-drop, drop-append_of_le, drop-eq-nil, drop-drop, u64, sub64, arith, refl, ap, sym, ◌∙◌,
  eq_cases, ne→==_false, ==_refl, inl, inr, transport, lt_cases,
}
use tiny_tcp_over_tun.Parser.Buffers.{BufferList, pop_prefix}

abbrev pub concat : List (List ℕ) → List ℕ
concat [] = []
concat (b ∷ bs) = b ++ concat bs

-- What is left of strings of which the first `skip` bytes are gone.
abbrev pub left : ℕ → List (List ℕ) → List ℕ
left skip [] = []
left skip (b ∷ bs) = drop skip b ++ concat bs

-- No string is empty.
abbrev pub AllFull : List (List ℕ) → Type 0
AllFull [] = Unit {0}
AllFull (b ∷ bs) = (0 < length b) × AllFull bs

-- An empty string has no bytes after it.
abbrev pub EmptiesLast : List (List ℕ) → Type 0
EmptiesLast [] = Unit {0}
EmptiesLast (b ∷ bs) = ((0 < length b) ⊎ (length (concat bs) ≡ 0)) × EmptiesLast bs

pub AllFull-EmptiesLast : (bs : List (List ℕ)) → AllFull bs → EmptiesLast bs
AllFull-EmptiesLast [] h = tt
AllFull-EmptiesLast (b ∷ bs) h = (inl h.0, AllFull-EmptiesLast bs h.1)

abbrev pub Full : ℕ → List (List ℕ) → Type 0
Full skip [] = skip ≡ 0
Full skip (b ∷ bs) =
    ((skip < length b) ⊎ ((skip ≡ length b) × (skip ≡ 0) × (length (concat bs) ≡ 0)))
    × EmptiesLast bs

pub Full-zero : (bs : List (List ℕ)) → EmptiesLast bs → Full 0 bs
Full-zero [] h = refl
Full-zero (b ∷ bs) (inl h, f) = (inl h, f)
Full-zero (b ∷ bs) (inr z, f) = elim (lt_cases 0 (length b)) [
  | inl h ↦ (inl h, f)
  | inr h ↦ (inr (omega arith, refl, z), f)
]

pub left-zero : (bs : List (List ℕ)) → left 0 bs ≡ concat bs
left-zero [] = refl
left-zero (b ∷ bs) = refl

-- The list holds exactly `bytes`, and bytes that are left begin in its first string.
pub record Has (b : BufferList) (bytes : List ℕ) : Type 0 where
  pub size : b.size ≡ length bytes
  pub small : length bytes < u64
  pub full : Full b.skip b.buffer_
  pub content : left b.skip b.buffer_ ≡ bytes

drop-append_of_ge :
    (n : ℕ) (xs ys : List ℕ) → length xs ≤ n → drop n (xs ++ ys) ≡ drop (n - length xs) ys
drop-append_of_ge n [] ys h = ap (λ k. drop k ys) (omega arith)
drop-append_of_ge zero (x ∷ xs) ys h = absurd (omega arith)
drop-append_of_ge (suc n) (x ∷ xs) ys h =
    drop-append_of_ge n xs ys (omega arith) ∙ ap (λ k. drop k ys) (omega arith)

pub pop_prefix-Has :
    (len skip size : ℕ) (bs : List (List ℕ))
    → size ≡ length (left skip bs)
    → size < u64
    → Full skip bs
    → len ≤ size
    → Has (pop_prefix len skip size bs) (drop len (left skip bs))
unfolding pop_prefix
pop_prefix-Has len skip size [] e hu f h =
    let gone : drop len [] ≡ [] = drop-eq-nil {A = ℕ} len [] (omega arith) in
    record {
      size = omega (arith, ap length gone);
      small = omega (arith, ap length gone);
      full = f;
      content = sym gone;
    }
pop_prefix-Has len skip size (front ∷ rest) e hu (lt, f) h = elim (eq_cases len 0) [
  | inl z ↦ rw z (record { size = e; small = omega (arith, e); full = (lt, f); content = refl })
  | inr ne ↦ elim (lt_cases len (length (drop skip front))) [
    | inl inside ↦
        let popped : min len (length (drop skip front)) ≡ len = omega arith in
        rw
          (
            ne→==_false len 0 ne,
            popped,
            ne→==_false (skip + len) (length front) (λ k. absurd (omega (arith, view))),
          )
          (record {
            size = omega (arith, e, left_size, whole, view);
            small = omega (arith, e, left_size, whole, view);
            full = (inl (omega (arith, view)), f);
            content =
                ap (λ l. l ++ concat rest) (sym (drop-drop skip len front))
                ∙ sym (drop-append_of_le len (drop skip front) (concat rest) (omega arith));
          })
    | inr used ↦
        let popped : min len (length (drop skip front)) ≡ length (drop skip front) = omega arith in
        let all : skip + length (drop skip front) ≡ length front = omega (arith, view) in
        rw (ne→==_false len 0 ne, popped, all, ==_refl (length front))
          (transport
            (λ i.
              Has
                (pop_prefix (len - length (drop skip front)) 0
                  (sub64 size (length (drop skip front))) rest)
                (beyond used i))
            (pop_prefix-Has (len - length (drop skip front)) 0
              (sub64 size (length (drop skip front))) rest (omega (arith, e, whole, zero_left))
              (omega (arith, e, whole)) (Full-zero rest f) (omega (arith, e, whole))))
  ]
]
  where
    view : length (drop skip front) ≡ length front - skip
    view = length-drop skip front

    whole :
        length (drop skip front ++ concat rest) ≡ length (drop skip front) + length (concat rest)
    whole = length-append (drop skip front) (concat rest)

    zero_left : length (left 0 rest) ≡ length (concat rest)
    zero_left = ap length (left-zero rest)

    left_size :
        length (drop len (drop skip front ++ concat rest))
        ≡ length (drop skip front ++ concat rest) - len
    left_size = length-drop len (drop skip front ++ concat rest)

    beyond :
        length (drop skip front) ≤ len
        → drop (len - length (drop skip front)) (left 0 rest)
          ≡ drop len (drop skip front ++ concat rest)
    beyond used =
        ap (drop (len - length (drop skip front))) (left-zero rest)
        ∙ sym (drop-append_of_ge len (drop skip front) (concat rest) used)
