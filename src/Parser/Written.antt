-- ===== src/Parser/Written.antt =====
-- What a `Serializer` (util/parser.hh) has written so far.
use tiny_tcp_over_tun.Common.{
  ℕ, ◌<◌, ◌≡◌, List, [], ◌∷◌, ◌++◌, length, append_assoc, append-nil, Bool, true, false, ◌==◌,
  if◌then◌else◌, arith, refl, ap, sym, ◌∙◌, eq_cases, ne→==_false, inl, inr,
}
use tiny_tcp_over_tun.Ref.{Ref, owned, borrow, get, is_borrowed, is_owned}
use tiny_tcp_over_tun.Parser.Serializer.{
  Serializer, new, bytes_of, integer, flush, buffer, buffers, finish,
}
use tiny_tcp_over_tun.Parser.Content.{concat, AllFull, EmptiesLast, AllFull-EmptiesLast}
use tiny_tcp_over_tun.Parser.Holds.{strings, AllOwned}

pub record Writes (s : Serializer) (bytes : List ℕ) : Type 0 where
  pub full : AllFull (strings s.output)
  pub content : concat (strings s.output) ++ s.buffer_ ≡ bytes

pub new-Writes : Writes new []
new-Writes = record { full = tt; content = refl }

pub integer-Writes :
    (len val : ℕ) (s : Serializer) (bytes : List ℕ)
    → Writes s bytes
    → Writes (integer len val s) (bytes ++ bytes_of len val)
unfolding integer
integer-Writes len val s bytes w = record {
  full = w.full;
  content =
      sym (append_assoc (concat (strings s.output)) s.buffer_ (bytes_of len val))
      ∙ ap (λ b. b ++ bytes_of len val) w.content;
}

concat-end :
    (refs : List (Ref (List ℕ))) (r : Ref (List ℕ))
    → concat (strings (refs ++ r ∷ [])) ≡ concat (strings refs) ++ get r
concat-end [] r = append-nil (get r)
concat-end (q ∷ refs) r =
    ap (◌++◌ (get q)) (concat-end refs r)
    ∙ sym (append_assoc (get q) (concat (strings refs)) (get r))

AllFull-end :
    (refs : List (Ref (List ℕ))) (r : Ref (List ℕ))
    → AllFull (strings refs)
    → 0 < length (get r)
    → AllFull (strings (refs ++ r ∷ []))
AllFull-end [] r f h = (h, tt)
AllFull-end (q ∷ refs) r (h, f) k = (h, AllFull-end refs r f k)

-- After `flush` nothing waits in the growing string.
pub flush-Writes :
    (s : Serializer) (bytes : List ℕ)
    → Writes s bytes
    → AllFull (strings (flush s).output)
      × (concat (strings (flush s).output) ≡ bytes)
      × ((flush s).buffer_ ≡ [])
unfolding flush get
flush-Writes s bytes w = elim (eq_cases (length s.buffer_) 0) [
  | inl z ↦
      let gone = no_bytes s.buffer_ z in
      rw z (
        w.full,
        sym (append-nil (concat (strings s.output)))
            ∙ ap (λ b. concat (strings s.output) ++ b) (sym gone)
            ∙ w.content,
        gone,
      )
  | inr ne ↦ rw (ne→==_false (length s.buffer_) 0 ne) (
    AllFull-end s.output (owned s.buffer_) w.full (omega arith),
    concat-end s.output (owned s.buffer_) ∙ w.content,
    refl,
  )
]
  where
    no_bytes : (b : List ℕ) → length b ≡ 0 → b ≡ []
    no_bytes [] h = refl
    no_bytes (x ∷ b) h = absurd (omega arith)

pub buffer-Writes :
    (buf : Ref (List ℕ)) (s : Serializer) (bytes : List ℕ)
    → Writes s bytes
    → Writes (buffer buf s) (bytes ++ get buf)
unfolding buffer
buffer-Writes buf s bytes w = elim (eq_cases (length (get buf)) 0) [
  | inl z ↦ rw z (record {
    full = w.full;
    content = w.content ∙ sym (append-nil bytes) ∙ ap (◌++◌ bytes) (sym (no_bytes (get buf) z));
  })
  | inr ne ↦
      let (full, content, gone) = flush-Writes s bytes w in
      rw (ne→==_false (length (get buf)) 0 ne) (record {
        full = AllFull-end (flush s).output buf full (omega arith);
        content =
            ap (◌++◌ (concat (strings ((flush s).output ++ buf ∷ [])))) gone
            ∙ append-nil (concat (strings ((flush s).output ++ buf ∷ [])))
            ∙ concat-end (flush s).output buf
            ∙ ap (λ b. b ++ get buf) content;
      })
]
  where
    no_bytes : (b : List ℕ) → length b ≡ 0 → b ≡ []
    no_bytes [] h = refl
    no_bytes (x ∷ b) h = absurd (omega arith)

pub buffers-Writes :
    (bufs : List (Ref (List ℕ))) (s : Serializer) (bytes : List ℕ)
    → Writes s bytes
    → Writes (buffers bufs s) (bytes ++ concat (strings bufs))
unfolding buffers borrow get
buffers-Writes [] s bytes w = record { full = w.full; content = w.content ∙ sym (append-nil bytes) }
buffers-Writes (b ∷ bufs) s bytes w =
    let r =
      buffers-Writes bufs (buffer (borrow b) s) (bytes ++ get b)
        (buffer-Writes (borrow b) s bytes w) in
    record {
      full = r.full;
      content = r.content ∙ append_assoc bytes (get b) (concat (strings bufs));
    }

-- The result of `finish` has all the bytes, and an empty string at most after them.
pub finish-Writes :
    (s : Serializer) (bytes : List ℕ)
    → Writes s bytes
    → EmptiesLast (strings (finish s)) × (concat (strings (finish s)) ≡ bytes)
unfolding finish
finish-Writes s bytes w =
    let (full, content, gone) = flush-Writes s bytes w in
    (AllFull-EmptiesLast (strings (flush s).output) full, content)

AllOwned-end :
    (refs : List (Ref (List ℕ))) (r : Ref (List ℕ))
    → AllOwned refs
    → is_borrowed r ≡ false
    → AllOwned (refs ++ r ∷ [])
AllOwned-end [] r o h = (h, tt)
AllOwned-end (q ∷ refs) r (k, o) h = (k, AllOwned-end refs r o h)

pub flush-AllOwned : (s : Serializer) → AllOwned s.output → AllOwned (flush s).output
unfolding flush is_borrowed is_owned
flush-AllOwned s o = either (length s.buffer_ == 0)
  where
    either :
        (b : Bool)
        → AllOwned (
            (if b
              then s
              else record { output = s.output ++ owned s.buffer_ ∷ []; buffer_ = [] }).output)
    either true = o
    either false = AllOwned-end s.output (owned s.buffer_) o refl

-- An owned string keeps the output owned.
pub buffer-AllOwned :
    (bytes : List ℕ) (s : Serializer) → AllOwned s.output → AllOwned (buffer (owned bytes) s).output
unfolding buffer is_borrowed is_owned get
buffer-AllOwned bytes s o = either (length bytes == 0)
  where
    either :
        (b : Bool)
        → AllOwned (
            (if b
              then s
              else record (flush s) { output = (flush s).output ++ owned bytes ∷ [] }).output)
    either true = o
    either false = AllOwned-end (flush s).output (owned bytes) (flush-AllOwned s o) refl

-- From `s` to `t`, `bytes` have been written.
abbrev pub Appends : Serializer → Serializer → List ℕ → Type 0
Appends s t bytes = (before : List ℕ) → Writes s before → Writes t (before ++ bytes)

pub rewrites : {s : Serializer} {xs ys : List ℕ} → xs ≡ ys → Writes s xs → Writes s ys
rewrites {s} e w = record { full = w.full; content = w.content ∙ e }

pub append_then :
    (s t u : Serializer) (xs ys : List ℕ) → Appends s t xs → Appends t u ys → Appends s u (xs ++ ys)
append_then s t u xs ys a b before w =
    rewrites (append_assoc before xs ys) (b (before ++ xs) (a before w))

pub integer-Appends :
    (len val : ℕ) (s : Serializer) → Appends s (integer len val s) (bytes_of len val)
integer-Appends len val s before w = integer-Writes len val s before w

pub done : (s : Serializer) → Appends s s []
done s before w = rewrites (sym (append-nil before)) w
