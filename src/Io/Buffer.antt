-- ===== src/Io/Buffer.antt =====
-- lib/utils_io.c: read_buffer and write_buffer finish what short transfers and signals interrupt.
use cryptsetup.Base.{
  ℕ, zero, suc, ◌+◌, ◌-◌, ◌≤◌, ◌<◌, ◌≡◌, refl, sym, ap, ap₂, ◌∙◌, arith, List, [], ◌∷◌, ◌++◌,
  append-nil, append_assoc,
}
use cryptsetup.Base.{
  length, take, drop, min, take-append-drop, take_all, length-drop, All, true, false, ◌==◌,
  Bool-cases, ◌⊎◌, inl, inr,
}
use cryptsetup.Base.{Option, some}
use mathlib.Core.Path.{subst}
use cryptsetup.Io.{
  Event, short, interrupted, failed, Fd, write_buffer, read_loop, write_loop, after_read,
  after_write,
}
use cryptsetup.Io.Bytes.{drop-drop, take-drop-append}

-- No call fails, and none transfers nothing.
abbrev pub IsGood : Event → Type 0
IsGood (short k) = 0 < k
IsGood interrupted = Unit
IsGood failed = ⊥

abbrev pub IsFair : List Event → Type 0
IsFair events = All IsGood events

abbrev pub at : List ℕ → List ℕ → List Event → Fd
at before after events = record { before = before; after = after; events = events }

same_end :
    {A : Type 0} {b b' a a' : List ℕ} {events : List Event} {x x' : A}
    → b ≡ b'
    → a ≡ a'
    → x ≡ x'
    → ◌≡◌ {A = Fd × Option A} (at b a events, some x) (at b' a' events, some x')
same_end {events} p q r = ap₂ (λ y z. (y, some z)) (ap₂ (λ y z. at y z events) p q) r

take_empty : (n : ℕ) (xs : List ℕ) → min n (length xs) ≡ 0 → take n xs ≡ []
take_empty zero xs h = refl
take_empty (suc n) [] h = refl
take_empty (suc n) (x ∷ xs) h = absurd (omega arith)

-- A call that reads `r` bytes, and the rest of the loop that reads all the others.
after_read-all :
    (n r : ℕ) (before after : List ℕ) (events events' : List Event) (next : Fd × Option (List ℕ))
    → r ≤ n
    → (r ≡ 0 → take n after ≡ [])
    → next ≡ (
      at
          ((before ++ take r after) ++ take (n - r) (drop r after))
          (drop (n - r) (drop r after))
          events',
      some (take (n - r) (drop r after)),
    )
    → (es : List Event) × (after_read n r before after events next
        ≡ (at (before ++ take n after) (drop n after) es, some (take n after)))
      × ((es ≡ events) ⊎ (es ≡ events'))
unfolding after_read
after_read-all n r before after events events' next le stop e = elim (Bool-cases (r == 0)) [
  | inl none_left ↦
      let t = stop (ground arith) in
      let d : drop n after ≡ after =
        sym (ap (λ x. x ++ drop n after) t) ∙ take-append-drop n after in
      let b : before ++ take n after ≡ before = ap (λ x. before ++ x) t ∙ append-nil before in
      (events, rw none_left (same_end (sym b) (sym d) (sym t)), inl refl)
  | inr some_left ↦ elim (Bool-cases (r == n)) [
    | inl all ↦
        let same : r ≡ n = ground arith in
        (
          events,
          rw (some_left, all)
              (same_end (ap (λ m. before ++ take m after) same) (ap (λ m. drop m after) same)
                (ap (λ m. take m after) same)),
          inl refl,
        )
    | inr part ↦
        let sum : r + (n - r) ≡ n = omega arith in
        let t : take r after ++ take (n - r) (drop r after) ≡ take n after =
          take-drop-append r (n - r) n after sum in
        let b : (before ++ take r after) ++ take (n - r) (drop r after) ≡ before ++ take n after =
          append_assoc before (take r after) (take (n - r) (drop r after))
          ∙ ap (λ x. before ++ x) t in
        (
          events',
          rw (some_left, part, e) (same_end b (drop-drop (n - r) r n after sum) t),
          inr refl,
        )
  ]
]

pub read_loop-IsFair :
    (events : List Event) (n : ℕ) (before after : List ℕ)
    → IsFair events
    → (events' : List Event) × IsFair events'
      × (read_loop events n before after
          ≡ (at (before ++ take n after) (drop n after) events', some (take n after)))
unfolding read_loop
read_loop-IsFair [] n before after v = ([], tt, refl)
read_loop-IsFair (failed ∷ events) n before after v = elim (v.0) [ ]
read_loop-IsFair (interrupted ∷ events) n before after v =
    read_loop-IsFair events n before after v.1
read_loop-IsFair (short k ∷ events) n before after v =
    let r : ℕ = min (min k n) (length after) in
    let (events', fair, e) =
      read_loop-IsFair events (n - r) (before ++ take r after) (drop r after) v.1 in
    let (es, done, which) =
      after_read-all n r before after events events'
        (read_loop events (n - r) (before ++ take r after) (drop r after)) (omega arith)
        (λ none_left. take_empty n after (omega (arith, v.0))) e in
    (es, elim which [ inl p ↦ subst IsFair (sym p) v.1 | inr p ↦ subst IsFair (sym p) fair ], done)

-- A call that writes `w` bytes, and the rest of the loop that writes all the others.
after_write-all :
    (src : List ℕ) (w : ℕ) (before after : List ℕ) (events events' : List Event)
    (next : Fd × Option ℕ)
    → 0 < w
    → w ≤ length src
    → length src ≤ length after
    → (w < length src
        → next ≡ (
          at
              ((before ++ take w src) ++ drop w src)
              (drop (length (drop w src)) (drop w after))
              events',
          some (length (drop w src)),
        ))
    → (es : List Event) × (after_write src w before after events next
        ≡ (at (before ++ src) (drop (length src) after) es, some (length src)))
      × ((es ≡ events) ⊎ (es ≡ events'))
unfolding after_write
after_write-all src w before after events events' next pos le room e =
    let some_room : (length after == 0) ≡ false = ground arith in
    let some_done : (w == 0) ≡ false = ground arith in
    elim (Bool-cases (w == length src)) [
      | inl all ↦
          let same : w ≡ length src = ground arith in
          (
            events,
            rw (some_room, some_done, all) (same_end refl (ap (λ m. drop m after) same) same),
            inl refl,
          )
      | inr part ↦
          let left : length (drop w src) ≡ length src - w = length-drop w src in
          let b : (before ++ take w src) ++ drop w src ≡ before ++ src =
            append_assoc before (take w src) (drop w src)
            ∙ ap (λ x. before ++ x) (take-append-drop w src) in
          (
            events',
            rw (some_room, some_done, part, e (ground arith))
                (same_end b (drop-drop (length (drop w src)) w (length src) after (omega arith))
                  (omega arith)),
            inr refl,
          )
    ]

pub write_loop-IsFair :
    (events : List Event) (src before after : List ℕ)
    → IsFair events
    → 0 < length src
    → length src ≤ length after
    → (events' : List Event) × IsFair events'
      × (write_loop events src before after
          ≡ (at (before ++ src) (drop (length src) after) events', some (length src)))
unfolding write_loop
write_loop-IsFair [] src before after v pos room =
    let w : ℕ = min (length src) (length after) in
    let same : w ≡ length src = omega arith in
    let test : (w == length src) ≡ true = ground arith in
    (
      [],
      tt,
      rw test (
          same_end
            (ap (λ m. before ++ take m src) same
              ∙ ap (λ x. before ++ x) (take_all (length src) src (omega arith)))
            (ap (λ m. drop m after) same) same),
    )
write_loop-IsFair (failed ∷ events) src before after v pos room = elim (v.0) [ ]
write_loop-IsFair (interrupted ∷ events) src before after v pos room =
    write_loop-IsFair events src before after v.1 pos room
write_loop-IsFair (short k ∷ events) src before after v pos room =
    let w : ℕ = min (min k (length src)) (length after) in
    elim (Bool-cases (w == length src)) [
      | inl all ↦
          let (es, done, which) =
            after_write-all src w before after events events
              (write_loop events (drop w src) (before ++ take w src) (drop w after))
              (omega (arith, v.0)) (omega arith) room (λ lt. absurd (ground arith)) in
          (
            es,
            elim which [ inl p ↦ subst IsFair (sym p) v.1 | inr p ↦ subst IsFair (sym p) v.1 ],
            done,
          )
      | inr part ↦
          let left : length (drop w src) ≡ length src - w = length-drop w src in
          let left' : length (drop w after) ≡ length after - w = length-drop w after in
          let (events', fair, e) =
            write_loop-IsFair events (drop w src) (before ++ take w src) (drop w after) v.1
              (ground arith) (omega arith) in
          let (es, done, which) =
            after_write-all src w before after events events'
              (write_loop events (drop w src) (before ++ take w src) (drop w after))
              (omega (arith, v.0)) (omega arith) room (λ lt. e) in
          (
            es,
            elim which [ inl p ↦ subst IsFair (sym p) v.1 | inr p ↦ subst IsFair (sym p) fair ],
            done,
          )
    ]

pub write_buffer-IsFair :
    (events : List Event) (src before after : List ℕ)
    → IsFair events
    → 0 < length src
    → length src ≤ length after
    → (events' : List Event) × IsFair events'
      × (write_buffer (at before after events) src
          ≡ (at (before ++ src) (drop (length src) after) events', some (length src)))
write_buffer-IsFair events src before after v pos room =
    let (events', fair, e) = write_loop-IsFair events src before after v pos room in
    let some_bytes : (length src == 0) ≡ false = ground arith in (events', fair, rw some_bytes e)
