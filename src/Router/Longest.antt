-- ===== src/Router/Longest.antt =====
-- The trie of src/router.cc finds the longest matching prefix, and of equal ones the newest.
use tiny_tcp_over_tun.Common.{
  ℕ, zero, suc, ◌≤◌, ◌<◌, ◌≡◌, ◌⊎◌, inl, inr, ◌&&◌, Option, none, some, ◌==◌, if◌then◌else◌, List,
  [], ◌∷◌, arith, refl, ap, sym, ◌∙◌,
}
use tiny_tcp_over_tun.Router.{
  RouteEntry, Trie, null, node, bit, route_entry, child, add_route, better, search_from, best_match,
}
use tiny_tcp_over_tun.Router.Entries.{
  matches, entry_at, entry_at-null, entry_at-new, entry_at-insert_from,
}

-- The table after routes have been added, the first of the list last.
unfoldable pub table : {A : Type 0} → List (RouteEntry A) → Trie (RouteEntry A)
table [] = node none null null
table (e ∷ routes) = add_route e (table routes)

-- The newest route whose prefix has `n` bits and matches the address.
unfoldable pub newest : {A : Type 0} → ℕ → ℕ → List (RouteEntry A) → Option (RouteEntry A)
unfolding matches
newest n dst_ip [] = none
newest n dst_ip (e ∷ routes) =
    if (n == e.prefix_length) && matches e.prefix_length 0 dst_ip e.route_prefix
    then some e
    else newest n dst_ip routes

entry_at-table :
    {A : Type 0} (n dst_ip : ℕ) (routes : List (RouteEntry A))
    → entry_at n 0 dst_ip (table routes) ≡ newest n dst_ip routes
unfolding table newest add_route
entry_at-table n dst_ip [] = entry_at-new n 0 dst_ip
entry_at-table n dst_ip (e ∷ routes) =
    entry_at-insert_from n e.prefix_length 0 dst_ip e.route_prefix e (table routes)
    ∙ ap
        (λ o.
          if (n == e.prefix_length) && matches e.prefix_length 0 dst_ip e.route_prefix
          then some e
          else o)
        (entry_at-table n dst_ip routes)

-- `result` is the last of `f 1` … `f n` that is there, or `best`.
abbrev Last : {R : Type 0} → (ℕ → Option R) → ℕ → Option R → Option R → Type 0
Last {R} f n best result =
    (((j : ℕ) → 0 < j → j ≤ n → f j ≡ none) × (result ≡ best))
    ⊎ ((k : ℕ) × (r : R) × (0 < k)
        × (k ≤ n)
        × (f k ≡ some r)
        × (result ≡ some r)
        × ((j : ℕ) → k < j → j ≤ n → f j ≡ none))

Last-nothing :
    {R : Type 0} (f : ℕ → Option R) (n : ℕ) (best : Option R)
    → ((j : ℕ) → f (suc j) ≡ none)
    → Last f n best best
Last-nothing f n best h = inl (nothing, refl)
  where
    nothing : (j : ℕ) → 0 < j → j ≤ n → f j ≡ none
    nothing zero k l = absurd (omega arith)
    nothing (suc j) k l = h j

-- One more node in front.
Last-suc :
    {R : Type 0} (f g : ℕ → Option R) (n : ℕ) (best : Option R) (c : Trie R) (result : Option R)
    → ((j : ℕ) → f (suc j) ≡ g j)
    → g 0 ≡ route_entry c
    → Last g n (better c best) result
    → Last f (suc n) best result
unfolding better route_entry
Last-suc f g n best c result e e0 (inr (k, r, pos, le, at, res, after)) =
    inr (suc k, r, omega arith, omega arith, e k ∙ at, res, later)
  where
    later : (j : ℕ) → suc k < j → j ≤ suc n → f j ≡ none
    later zero a b = absurd (omega arith)
    later (suc j) a b = e j ∙ after j (omega arith) (omega arith)
Last-suc f g n best null result e e0 (inl (nones, res)) = inl (all, res)
  where
    all : (j : ℕ) → 0 < j → j ≤ suc n → f j ≡ none
    all zero a b = absurd (omega arith)
    all (suc zero) a b = e 0 ∙ e0
    all (suc (suc j)) a b = e (suc j) ∙ nones (suc j) (omega arith) (omega arith)
Last-suc f g n best (node none zeros ones) result e e0 (inl (nones, res)) = inl (all, res)
  where
    all : (j : ℕ) → 0 < j → j ≤ suc n → f j ≡ none
    all zero a b = absurd (omega arith)
    all (suc zero) a b = e 0 ∙ e0
    all (suc (suc j)) a b = e (suc j) ∙ nones (suc j) (omega arith) (omega arith)
Last-suc f g n best (node (some r) zeros ones) result e e0 (inl (nones, res)) =
    inr (1, r, omega arith, omega arith, e 0 ∙ e0, res, later)
  where
    later : (j : ℕ) → 1 < j → j ≤ suc n → f j ≡ none
    later zero a b = absurd (omega arith)
    later (suc j) a b = e j ∙ nones j (omega arith) (omega arith)

search_from-Last :
    {R : Type 0} (n i a : ℕ) (t : Trie R) (best : Option R)
    → Last (λ j. entry_at j i a t) n best (search_from n i a t best)
unfolding search_from entry_at
search_from-Last zero i a t best = inl (λ j h k. absurd (omega arith), refl)
search_from-Last {R} (suc n) i a t best =
    step (child (bit i a) t) (λ j. refl)
      (search_from n (suc i) a (child (bit i a) t) (better (child (bit i a) t) best))
      (search_from-Last n (suc i) a (child (bit i a) t) (better (child (bit i a) t) best))
  where
    step :
        (c : Trie R)
        → ((j : ℕ) → entry_at (suc j) i a t ≡ entry_at j (suc i) a c)
        → (rest : Option R) → Last (λ j. entry_at j (suc i) a c) n (better c best) rest
        → Last
            (λ j. entry_at j i a t)
            (suc n)
            best
            (elim c [ null ↦ best | node r zeros ones ↦ rest ])
    step null e rest h =
        Last-nothing (λ j. entry_at j i a t) (suc n) best (λ j. e j ∙ entry_at-null j (suc i) a)
    step (node r zeros ones) e rest h =
        Last-suc (λ j. entry_at j i a t) (λ j. entry_at j (suc i) a (node r zeros ones)) n best
          (node r zeros ones) rest e refl h

-- What the best match is, in terms of the entries `f` on the path of the address.
abbrev pub Longest : {R : Type 0} → (ℕ → Option R) → ℕ → Option R → Type 0
Longest {R} f n result =
    (((j : ℕ) → j ≤ n → f j ≡ none) × (result ≡ none))
    ⊎ ((k : ℕ) × (r : R) × (k ≤ n)
        × (f k ≡ some r)
        × (result ≡ some r)
        × ((j : ℕ) → k < j → j ≤ n → f j ≡ none))

Last-Longest :
    {R : Type 0} (f g : ℕ → Option R) (n : ℕ) (best result : Option R)
    → ((j : ℕ) → f j ≡ g j)
    → best ≡ f 0
    → Last f n best result
    → Longest g n result
Last-Longest f g n best result e e0 (inr (k, r, pos, le, at, res, after)) =
    inr (k, r, le, sym (e k) ∙ at, res, λ j a b. sym (e j) ∙ after j a b)
Last-Longest {R} f g n best result e e0 (inl (nones, res)) = root (g 0) refl
  where
    all : g 0 ≡ none → (j : ℕ) → j ≤ n → g j ≡ none
    all h zero a = h
    all h (suc j) a = sym (e (suc j)) ∙ nones (suc j) (omega arith) (omega arith)

    root : (o : Option R) → g 0 ≡ o → Longest g n result
    root none h = inl (all h, res ∙ e0 ∙ e 0 ∙ h)
    root (some r) h = inr (
      0,
      r,
      omega arith,
      h,
      res ∙ e0 ∙ e 0 ∙ h,
      λ j a b. sym (e j) ∙ nones j (omega arith) (omega arith),
    )

-- In a table of routes, the loop over the bits of an address ends with the newest of the routes
-- with the longest prefix that matches: either nothing matches and there is no best match, or the
-- best match is the newest matching route of some length, and no longer prefix matches.
pub best_match-Longest :
    {A : Type 0} (dst_ip : ℕ) (routes : List (RouteEntry A))
    → Longest (λ n. newest n dst_ip routes) 32 (best_match dst_ip (table routes))
unfolding best_match entry_at
best_match-Longest dst_ip routes =
    Last-Longest (λ n. entry_at n 0 dst_ip (table routes)) (λ n. newest n dst_ip routes) 32
      (route_entry (table routes))
      (search_from 32 0 dst_ip (table routes) (route_entry (table routes)))
      (λ n. entry_at-table n dst_ip routes) refl
      (search_from-Last 32 0 dst_ip (table routes) (route_entry (table routes)))
