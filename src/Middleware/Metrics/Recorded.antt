-- ===== src/Middleware/Metrics/Recorded.antt =====
-- What is recorded of a response is what was sent.
use go_performance_starter.Prelude.{
  ℕ, ◌+◌, ◌-◌, ◌≡◌, refl, sym, ap, subst, Bool, true, false, Option, none, some, List, [], ◌∷◌, ◌⊎◌,
  inl, inr, length, length-append, All,
}
use go_performance_starter.Prelude.Dict.{Dict, lookup, lookup-insert}
use go_performance_starter.Prelude.Text.{Text}
use go_performance_starter.Writers.{
  Writer, write_header, write, set_header, is_informational, Act, sets_header, writes_header,
  writes, send_first,
}
use go_performance_starter.Performance.Observer.{Observer}
use go_performance_starter.Middleware.Metrics.{
  ResponseWriter, counted_write_header, counted_write, counted_act, counted_acts, metrics,
}

module _ (timing : ℕ → Text) (start : ℕ) where
  -- The response that was sent has the status that was recorded, and its time to the first byte.
  abbrev pub IsStamped : ℕ → Option (ℕ × Dict Text) → Type 0
  IsStamped code sent =
      (h : Dict Text) × (t : ℕ) × (sent ≡ some (code, h))
      × (lookup "Server-Timing" h ≡ some (timing (t - start)))

  abbrev IsStatus : Bool → ℕ → Option (ℕ × Dict Text) → Type 0
  IsStatus false code sent = (sent ≡ none) × (code ≡ 200)
  IsStatus true code sent = IsStamped code sent

  -- The state of the wrapper, by its fields.
  abbrev IsCounted : ResponseWriter → Type 0
  IsCounted w =
      (w.start ≡ some start)
      × IsStatus w.wrote_header w.status_code w.inner.sent
      × (w.bytes_written ≡ length w.inner.body)

  -- The call sends no informational status.
  abbrev pub IsFinal : ℕ × Act → Type 0
  IsFinal (now, sets_header name value) = Unit
  IsFinal (now, writes_header code) = is_informational code ≡ false
  IsFinal (now, writes bytes) = Unit

  abbrev writer : Writer → ℕ → ℕ → Bool → ResponseWriter
  writer inner code bytes wrote = record {
    inner = inner;
    status_code = code;
    bytes_written = bytes;
    start = some start;
    wrote_header = wrote;
  }

  counted_write_header-IsCounted :
      (inner : Writer) (code bytes : ℕ) (wrote : Bool) (now status : ℕ)
      → is_informational status ≡ false
      → IsCounted (writer inner code bytes wrote)
      → IsCounted (counted_write_header timing (writer inner code bytes wrote) now status)
        × ((counted_write_header timing (writer inner code bytes wrote) now status).wrote_header
            ≡ true)
  unfolding counted_write_header write_header
  counted_write_header-IsCounted inner code bytes true now status final kept = (kept, refl)
  counted_write_header-IsCounted inner code bytes false now status final
        (s, (nothing, plain), size) =
      rw final (
        (
          refl,
          (
            (set_header inner "Server-Timing" (timing (now - start))).header,
            now,
            ap
                (λ sent.
                  send_first sent status
                    (set_header inner "Server-Timing" (timing (now - start))).header)
                nothing,
            rw (lookup-insert "Server-Timing" "Server-Timing" (timing (now - start)) inner.header)
                refl,
          ),
          size,
        ),
        refl,
      )

  IsStamped-write :
      (inner : Writer) (code : ℕ) (bs : List ℕ)
      → IsStamped code inner.sent
      → IsStamped code (write inner bs).sent
  unfolding write
  IsStamped-write inner code bs (h, t, sent, stamped) = rw sent (h, t, refl, stamped)

  body-write :
      (inner : Writer) (bytes : ℕ) (bs : List ℕ)
      → bytes ≡ length inner.body
      → bytes + length bs ≡ length (write inner bs).body
  unfolding write
  body-write inner bytes bs e = rw (length-append inner.body bs, e) refl

  IsCounted-write :
      (w : ResponseWriter) (bs : List ℕ)
      → w.wrote_header ≡ true
      → IsCounted w
      → IsCounted
          (record w { inner = write w.inner bs; bytes_written = w.bytes_written + length bs })
  IsCounted-write w bs wrote (s, status, size) = (
    s,
    subst (λ b. IsStatus b w.status_code (write w.inner bs).sent) (sym wrote)
        (IsStamped-write w.inner w.status_code bs
          (subst (λ b. IsStatus b w.status_code w.inner.sent) wrote status)),
    body-write w.inner w.bytes_written bs size,
  )

  counted_act-IsCounted :
      (inner : Writer) (code bytes : ℕ) (wrote : Bool) (a : ℕ × Act)
      → IsFinal a
      → IsCounted (writer inner code bytes wrote)
      → IsCounted (counted_act timing (writer inner code bytes wrote) a)
  unfolding counted_act counted_write
  counted_act-IsCounted inner code bytes true (now, sets_header name value) final kept = kept
  counted_act-IsCounted inner code bytes false (now, sets_header name value) final kept = kept
  counted_act-IsCounted inner code bytes wrote (now, writes_header status) final kept =
      (counted_write_header-IsCounted inner code bytes wrote now status final kept).0
  counted_act-IsCounted inner code bytes true (now, writes bs) final kept =
      IsCounted-write (writer inner code bytes true) bs refl kept
  counted_act-IsCounted inner code bytes false (now, writes bs) final kept =
      let (after, wrote) =
        counted_write_header-IsCounted inner code bytes false now 200 refl kept in
      IsCounted-write (counted_write_header timing (writer inner code bytes false) now 200) bs wrote
        after

  status_cases :
      (wrote : Bool) (code : ℕ) (sent : Option (ℕ × Dict Text))
      → IsStatus wrote code sent
      → ((sent ≡ none) × (code ≡ 200)) ⊎ IsStamped code sent
  status_cases false code sent status = inl status
  status_cases true code sent status = inr status

  -- A wrapper that started then is the one of its fields.
  started :
      (w : ResponseWriter) (a : ℕ × Act)
      → w.start ≡ some start
      → IsCounted
          (counted_act timing (writer w.inner w.status_code w.bytes_written w.wrote_header) a)
      → IsCounted (counted_act timing w a)
  started w a e kept =
      subst (λ s. IsCounted (counted_act timing (record w { start = s }) a)) (sym e) kept

  counted_acts-IsCounted :
      (w : ResponseWriter) (acts : List (ℕ × Act))
      → All IsFinal acts
      → IsCounted w
      → IsCounted (counted_acts timing w acts)
  unfolding counted_acts
  counted_acts-IsCounted w [] final kept = kept
  counted_acts-IsCounted w (a ∷ acts) (now, later) kept =
      counted_acts-IsCounted (counted_act timing w a) acts later (
        started w a kept.0 (
          counted_act-IsCounted w.inner w.status_code w.bytes_written w.wrote_header a now
            (refl, kept.1, kept.2)))

  -- However a handler writes its response, but for informational statuses: the number of bytes that is
  -- recorded is that of the body, and either nothing was sent and the status 200 is recorded, which
  -- net/http then sends, or the status that was sent is recorded, and the headers that were sent with
  -- it hold the time from the start to a moment of the run.
  pub metrics-IsCounted :
      (observer : Observer) (end : ℕ) (acts : List (ℕ × Act)) (w : Writer)
      → w.sent ≡ none
      → w.body ≡ []
      → All IsFinal acts
      → ((metrics timing observer start end acts w).1.1.response_size
          ≡ length (metrics timing observer start end acts w).1.0.body)
        × ((((metrics timing observer start end acts w).1.0.sent ≡ none)
              × ((metrics timing observer start end acts w).1.1.status ≡ 200))
            ⊎ IsStamped
                (metrics timing observer start end acts w).1.1.status
                (metrics timing observer start end acts w).1.0.sent)
  unfolding metrics
  metrics-IsCounted observer end acts w fresh empty final =
      let (s, status, size) =
        counted_acts-IsCounted (writer w 200 0 false) acts final
          (refl, (fresh, refl), rw empty refl) in
      (size, status_cases _ _ _ status)
