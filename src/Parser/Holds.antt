-- ===== src/Parser/Holds.antt =====
-- A `Parser` (util/parser.hh) that holds given bytes, from its constructor to its last operation.
use tiny_tcp_over_tun.Common.{
  ℕ, ◌≤◌, ◌<◌, ◌≡◌, ◌⊎◌, List, [], ◌∷◌, ◌++◌, length, drop, get_or, length-drop, length-append,
  Bool, true, false, some, u64, arith, refl, ap, sym, ◌∙◌, ◌==◌, if◌then◌else◌, map, transport,
  eq_cases, ne→==_false, inl, inr,
}
use tiny_tcp_over_tun.Ref.{Ref, owned, get, copy, is_borrowed, is_owned}
use tiny_tcp_over_tun.Parser.{Parser}
use tiny_tcp_over_tun.Parser.Buffers
use tiny_tcp_over_tun.Parser.Buffers.{BufferList, total_size, take_owned, make, peek}
use tiny_tcp_over_tun.Parser.Content.{
  concat, left, left-zero, EmptiesLast, Full, Full-zero, Has, pop_prefix-Has,
}

-- No error, and exactly `bytes` are left.
pub record Holds (p : Parser) (bytes : List ℕ) : Type 0 where
  pub fine : p.error ≡ false
  pub has : Has p.input bytes

abbrev pub strings : List (Ref (List ℕ)) → List (List ℕ)
strings refs = map get refs

abbrev pub AllOwned : List (Ref (List ℕ)) → Type 0
AllOwned [] = Unit {0}
AllOwned (r ∷ refs) = (is_borrowed r ≡ false) × AllOwned refs

pub AllOwned-copy : (refs : List (Ref (List ℕ))) → AllOwned (map copy refs)
unfolding copy is_borrowed is_owned
AllOwned-copy [] = tt
AllOwned-copy (r ∷ refs) = (refl, AllOwned-copy refs)

pub strings-copy : (refs : List (Ref (List ℕ))) → strings (map copy refs) ≡ strings refs
unfolding copy get
strings-copy [] = refl
strings-copy (r ∷ refs) = ap (◌∷◌ (get r)) (strings-copy refs)

total_size-concat : (bs : List (List ℕ)) → total_size bs ≡ length (concat bs)
unfolding total_size
total_size-concat [] = refl
total_size-concat (b ∷ bs) = omega (arith, total_size-concat bs, length-append b (concat bs))

take_owned-owned :
    (refs : List (Ref (List ℕ))) → AllOwned refs → take_owned refs ≡ some (strings refs)
unfolding take_owned
take_owned-owned [] h = refl
take_owned-owned (r ∷ refs) (h, rest) = rw (h, take_owned-owned refs rest)

-- The constructor on owned strings.
pub make-Has :
    (refs : List (Ref (List ℕ))) (bytes : List ℕ)
    → AllOwned refs
    → EmptiesLast (strings refs)
    → concat (strings refs) ≡ bytes
    → length bytes < u64
    → (b : BufferList) × (make refs ≡ some b) × Has b bytes
unfolding make
make-Has refs bytes o f e h = (
  record { size = total_size (strings refs); buffer_ = strings refs; skip = 0 },
  rw (take_owned-owned refs o, make),
  record {
    size = total_size-concat (strings refs) ∙ ap length e;
    small = h;
    full = Full-zero (strings refs) f;
    content = left-zero (strings refs) ∙ e;
  },
)

first :
    (v c bytes : List ℕ) (x : ℕ)
    → 0 < length v
    → v ++ c ≡ x ∷ bytes
    → (view : List ℕ) × (v ≡ x ∷ view)
first [] c bytes x h e = absurd (omega arith)
first (y ∷ ys) c bytes x h e = (ys, ap (λ l. get_or l 0 0 ∷ ys) e)

peek-parts :
    (size skip : ℕ) (bs : List (List ℕ)) (x : ℕ) (bytes : List ℕ)
    → Full skip bs
    → left skip bs ≡ x ∷ bytes
    → (view : List ℕ) × (peek (record { size = size; buffer_ = bs; skip = skip }) ≡ some (x ∷ view))
unfolding peek
peek-parts size skip [] x bytes f e = absurd (omega (arith, ap length e))
peek-parts size skip (front ∷ rest) x bytes (inr none_left, f) e = absurd (
    omega
      (arith, ap length e, length-append (drop skip front) (concat rest), length-drop skip front))
peek-parts size skip (front ∷ rest) x bytes (inl lt, f) e =
    let (view, v) =
      first (drop skip front) (concat rest) bytes x (omega (arith, length-drop skip front)) e in
    (view, ap some v)

-- The front of the first string is the first byte.
pub peek-Has :
    (b : BufferList) (x : ℕ) (bytes : List ℕ)
    → Has b (x ∷ bytes)
    → (view : List ℕ) × (peek b ≡ some (x ∷ view))
peek-Has b x bytes h = peek-parts b.size b.skip b.buffer_ x bytes h.full h.content

pub remove_prefix-Has :
    (n : ℕ) (b : BufferList) (bytes : List ℕ)
    → Has b bytes
    → n ≤ length bytes
    → Has (Buffers.remove_prefix n b) (drop n bytes)
unfolding Buffers.remove_prefix
remove_prefix-Has n b bytes h le =
    transport (λ i. Has (Buffers.pop_prefix n b.skip b.size b.buffer_) (drop n (h.content i)))
      (pop_prefix-Has n b.skip b.size b.buffer_ (h.size ∙ ap length (sym h.content))
        (omega (arith, h.size, h.small)) h.full (omega (arith, h.size)))

owned_strings : (bs : List (List ℕ)) → strings (map owned bs) ≡ bs
unfolding get
owned_strings [] = refl
owned_strings (b ∷ bs) = ap (◌∷◌ b) (owned_strings bs)

no_bytes : (bytes : List ℕ) → length bytes ≡ 0 → [] ≡ bytes
no_bytes [] h = refl
no_bytes (x ∷ bytes) h = absurd (omega arith)

dump_all-parts :
    (size skip : ℕ) (bs : List (List ℕ))
    → size ≡ length (left skip bs)
    → concat (strings (Buffers.dump_all (record { size = size; buffer_ = bs; skip = skip })).0)
      ≡ left skip bs
unfolding Buffers.dump_all Buffers.empty get
dump_all-parts size skip bs e = elim (eq_cases size 0) [
  | inl z ↦ rw z (no_bytes (left skip bs) (omega arith))
  | inr ne ↦ rw (ne→==_false size 0 ne) (all bs)
]
  where
    all :
        (bs : List (List ℕ))
        → concat (
            strings (elim bs as (λ _. List (Ref (List ℕ))) [
              | [] ↦ []
              | front ∷ rest ↦ owned (if skip == 0 then front else drop skip front) ∷ map owned rest
            ]))
          ≡ left skip bs
    all [] = refl
    all (front ∷ rest) = elim (eq_cases skip 0) [
      | inl z ↦ rw z (ap (λ l. front ++ concat l) (owned_strings rest))
      | inr ne ↦
          rw (ne→==_false skip 0 ne) (ap (λ l. drop skip front ++ concat l) (owned_strings rest))
    ]

buffer-parts :
    (size skip : ℕ) (bs : List (List ℕ))
    → size ≡ length (left skip bs)
    → concat (Buffers.buffer (record { size = size; buffer_ = bs; skip = skip })) ≡ left skip bs
unfolding Buffers.buffer Buffers.empty
buffer-parts size skip bs e = elim (eq_cases size 0) [
  | inl z ↦ rw z (no_bytes (left skip bs) (omega arith))
  | inr ne ↦ rw (ne→==_false size 0 ne) (all bs)
]
  where
    all :
        (bs : List (List ℕ))
        → concat
            (elim bs as (λ _. List (List ℕ)) [ [] ↦ [] | front ∷ rest ↦ drop skip front ∷ rest ])
          ≡ left skip bs
    all [] = refl
    all (front ∷ rest) = refl

-- The two ways to take all that is left.
pub dump_all-Has :
    (b : BufferList) (bytes : List ℕ)
    → Has b bytes
    → concat (strings (Buffers.dump_all b).0) ≡ bytes
dump_all-Has b bytes h =
    dump_all-parts b.size b.skip b.buffer_ (h.size ∙ ap length (sym h.content)) ∙ h.content

pub buffer-Has : (b : BufferList) (bytes : List ℕ) → Has b bytes → concat (Buffers.buffer b) ≡ bytes
buffer-Has b bytes h =
    buffer-parts b.size b.skip b.buffer_ (h.size ∙ ap length (sym h.content)) ∙ h.content

-- Owned strings that make these bytes, an empty one at most after all of them.
pub record Spread (refs : List (Ref (List ℕ))) (bytes : List ℕ) : Type 0 where
  pub content : concat (strings refs) ≡ bytes
  pub owned : AllOwned refs
  pub full : EmptiesLast (strings refs)

map-owned :
    (bs : List (List ℕ))
    → EmptiesLast bs
    → AllOwned (map owned bs) × EmptiesLast (strings (map owned bs))
unfolding get is_borrowed is_owned
map-owned [] h = (tt, tt)
map-owned (b ∷ bs) (h, f) =
    let (o, g) = map-owned bs f in
    (
      (refl, o),
      (
        elim h [
          | inl some_left ↦ inl some_left
          | inr none_left ↦ inr (ap (λ bs. length (concat bs)) (owned_strings bs) ∙ none_left)
        ],
        g,
      ),
    )

dump_all-EmptiesLast :
    (b : BufferList)
    → Full b.skip b.buffer_
    → AllOwned (Buffers.dump_all b).0 × EmptiesLast (strings (Buffers.dump_all b).0)
unfolding Buffers.dump_all Buffers.empty get is_borrowed is_owned
dump_all-EmptiesLast b full = either (b.size == 0) b.buffer_ full
  where
    Good : List (Ref (List ℕ)) × BufferList → Type 0
    Good r = AllOwned r.0 × EmptiesLast (strings r.0)

    front_full :
        (skip : ℕ) (front : List ℕ) (rest : List (List ℕ))
        → (skip < length front) ⊎ ((skip ≡ length front) × (skip ≡ 0) × (length (concat rest) ≡ 0))
        → (0 < length (if skip == 0 then front else drop skip front))
          ⊎ (length (concat (strings (map owned rest))) ≡ 0)
    front_full skip front rest (inr (e, z, none_left)) =
        inr (ap (λ bs. length (concat bs)) (owned_strings rest) ∙ none_left)
    front_full skip front rest (inl h) = inl (elim (eq_cases skip 0) [
      | inl z ↦ rw z (omega (arith, z))
      | inr ne ↦ rw (ne→==_false skip 0 ne) (omega (arith, length-drop skip front))
    ])

    either :
        (e : Bool) (bs : List (List ℕ))
        → Full b.skip bs
        → Good (
            if e then ([], b) else (
              elim bs as (λ _. List (Ref (List ℕ))) [
                | [] ↦ []
                | front ∷ rest ↦
                    owned (if b.skip == 0 then front else drop b.skip front) ∷ map owned rest
              ],
              record b { buffer_ = [] },
            ))
    either true bs f = (tt, tt)
    either false [] f = (tt, tt)
    either false (front ∷ rest) (h, f) =
        let (o, g) = map-owned rest f in ((refl, o), (front_full b.skip front rest h, g))

pub dump_all-Spread :
    (b : BufferList) (bytes : List ℕ) → Has b bytes → Spread (Buffers.dump_all b).0 bytes
dump_all-Spread b bytes h = record {
  content = dump_all-Has b bytes h;
  owned = (dump_all-EmptiesLast b h.full).0;
  full = (dump_all-EmptiesLast b h.full).1;
}
