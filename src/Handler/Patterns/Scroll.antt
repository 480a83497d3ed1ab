-- ===== src/Handler/Patterns/Scroll.antt =====
-- The pages of the infinite scroll are the whole list.
use go_performance_starter.Prelude.{
  ltb, ℕ, zero, suc, ◌+◌, ◌-◌, ◌*◌, ◌%◌, ◌^◌, ◌≤◌, ◌<◌, min, ◌≡◌, refl, sym, ap, ◌∙◌, subst, ◌⊎◌,
  true, false, Option, none, some, List, [], ◌∷◌, ◌++◌, arith, ◌==◌, if◌then◌else◌, length, take,
  drop, length-drop, Bool-cases, inl, inr, take-append-drop, take_all,
}
use go_performance_starter.Prelude.Text.{Text}
use go_performance_starter.Http.{ℤ, pos, negsuc}
use go_performance_starter.Config.{atoi}
use go_performance_starter.Handler.Patterns.{
  ScrollPage, panics, scroll_page, scroll_at, page_to, offset_bits, is_negative, requested_page,
  pattern_scroll, pattern_stub_data,
}

small_mod : (n : ℕ) → n < 2 ^ 63 → n % 2 ^ 64 ≡ n
small_mod n small = omega arith

offset_bits_small :
    (m per_page : ℕ) → m * per_page < 2 ^ 63 → offset_bits (suc m) per_page ≡ m * per_page
offset_bits_small m per_page small =
    let pred : suc m - 1 ≡ m = omega arith in
    ap (λ n. (n * per_page) % 2 ^ 64) pred ∙ small_mod (m * per_page) small

-- The query asks for the page behind the first `m`: it is that number, or no positive number at all, for
-- the first page.
abbrev pub IsQuery : Text → ℕ → Type 0
IsQuery query m =
    (((n : ℕ) → 0 < n → ¬ (atoi query ≡ some (pos n))) × (m ≡ 0))
    ⊎ (atoi query ≡ some (pos (suc m)))

requested_page_lem :
    (found : Option ℤ) (m : ℕ)
    → (((n : ℕ) → 0 < n → ¬ (found ≡ some (pos n))) × (m ≡ 0)) ⊎ (found ≡ some (pos (suc m)))
    → requested_page found ≡ suc m
requested_page_lem found m (inr e) = rw (e, requested_page) refl
requested_page_lem none m (inl (other, first)) = ap suc (sym first)
requested_page_lem (some (negsuc n)) m (inl (other, first)) = ap suc (sym first)
requested_page_lem (some (pos zero)) m (inl (other, first)) = ap suc (sym first)
requested_page_lem (some (pos (suc n))) m (inl (other, first)) =
    absurd (other (suc n) (omega arith) refl)

module _ {A : Type 0} where
  abbrev joined : List A → Option (List A) → Option (List A)
  joined items none = none
  joined items (some rest) = some (items ++ rest)

  -- What a browser collects that follows the link to the next page of each answer, from a query on:
  -- nothing where a page panics, or where there are more than `fuel` pages.
  unfoldable pub collected :
      (Text → ScrollPage A) → (ℕ → Text) → (fuel : ℕ) → Text → Option (List A)
  collected serve link zero query = none
  collected serve link (suc fuel) query = elim (serve query) [
    | panics ↦ none
    | scroll_page items next ↦
        let rest = collected serve link fuel (link next) in
        if next == 0 then some items else joined items rest
  ]

  drop_nil : (k : ℕ) → drop {A = A} k [] ≡ []
  drop_nil zero = refl
  drop_nil (suc k) = refl

  drop_add : (s k : ℕ) (xs : List A) → drop (s + k) xs ≡ drop k (drop s xs)
  drop_add zero k xs = let e : zero + k ≡ k = omega arith in ap (λ n. drop n xs) e
  drop_add (suc s) k [] = drop_nil (suc s + k) ∙ sym (drop_nil k)
  drop_add (suc s) k (x ∷ xs) =
      let e : suc s + k ≡ suc (s + k) = omega arith in ap (λ n. drop n (x ∷ xs)) e ∙ drop_add s k xs

  take-append-drop_more :
      (k s : ℕ) (xs : List A) → take k (drop s xs) ++ drop (s + k) xs ≡ drop s xs
  take-append-drop_more k s xs =
      ap (λ rest. take k (drop s xs) ++ rest) (drop_add s k xs) ∙ take-append-drop k (drop s xs)

  take_rest : (s : ℕ) (xs : List A) → take (length xs - s) (drop s xs) ≡ drop s xs
  take_rest s xs = take_all (length xs - s) (drop s xs) (omega (arith, length-drop s xs))

  drop_past : (k : ℕ) (xs : List A) → length xs ≤ k → drop k xs ≡ []
  drop_past k [] past = drop_nil k
  drop_past zero (x ∷ xs) past = absurd (omega arith)
  drop_past (suc k) (x ∷ xs) past = drop_past k xs (omega arith)

  drop-min : (k : ℕ) (xs : List A) → drop (min k (length xs)) xs ≡ drop k xs
  drop-min k xs = elim (Bool-cases (ltb k (length xs))) [
    | inl before ↦
        let same : min k (length xs) ≡ k = ground (arith, before) in ap (λ n. drop n xs) same
    | inr behind ↦
        let past : length xs ≤ k = ground (arith, behind) in
        let same : min k (length xs) ≡ length xs = omega arith in
        ap (λ n. drop n xs) same
        ∙ drop_past (length xs) xs (omega arith)
        ∙ sym (drop_past k xs past)
  ]

  scroll_at_small :
      (data' : List A) (per_page m : ℕ)
      → m * per_page < 2 ^ 63
      → length data' + per_page < 2 ^ 63
      → let start = min (m * per_page) (length data') in
        scroll_at data' per_page (suc m) ≡ page_to data' (suc m) start (start + per_page)
  unfolding scroll_at
  scroll_at_small data' per_page m small bound =
      let start = min (m * per_page) (length data') in
      let bits = offset_bits_small m per_page small in
      let positive : is_negative (m * per_page) ≡ false = ground arith in
      let whole : (start + per_page) % 2 ^ 64 ≡ start + per_page =
        small_mod (start + per_page) (omega arith) in
      rw (bits, positive, whole) refl

  module _ (serve : Text → ScrollPage A) (link : ℕ → Text) (data' : List A) (per_page : ℕ) where
    collected_last :
        (n page start : ℕ) (query : Text)
        → start ≤ length data'
        → length data' ≤ start + per_page
        → start + per_page < 2 ^ 63
        → serve query ≡ page_to data' page start (start + per_page)
        → collected serve link (suc n) query ≡ some (drop start data')
    unfolding collected
    collected_last n page start query below last' bound at' =
        let positive : is_negative (start + per_page) ≡ false = ground arith in
        let end : min (start + per_page) (length data') ≡ length data' = omega arith in
        let ends : (length data' == length data') ≡ true = ground arith in
        rw (at', collected, positive, end, ends, take_rest start data')

    collected_more :
        (n page start : ℕ) (query : Text)
        → start + per_page < length data'
        → start + per_page < 2 ^ 63
        → page + 1 < 2 ^ 63
        → serve query ≡ page_to data' page start (start + per_page)
        → collected serve link n (link (page + 1)) ≡ some (drop (start + per_page) data')
        → collected serve link (suc n) query ≡ some (drop start data')
    unfolding collected
    collected_more n page start query below bound small at' ih =
        let positive : is_negative (start + per_page) ≡ false = ground arith in
        let end : min (start + per_page) (length data') ≡ start + per_page = omega arith in
        let goes_on : (start + per_page == length data') ≡ false = ground arith in
        let next : (page + 1) % 2 ^ 64 ≡ page + 1 = small_mod (page + 1) small in
        let follows : (page + 1 == 0) ≡ false = ground arith in
        let size : start + per_page - start ≡ per_page = omega arith in
        rw (
          at',
          collected,
          positive,
          end,
          goes_on,
          next,
          follows,
          size,
          ih,
          take-append-drop_more per_page start data',
        )

-- The list of the code, in pages of five.
module _ (link : ℕ → Text) where
  -- The link to a page that there is has its number.
  abbrev pub IsLink : Type 0
  IsLink = (n : ℕ) → 0 < n → n ≤ 4 → atoi (link n) ≡ some (pos n)

  pattern_scroll-page_to :
      (query : Text) (m : ℕ)
      → IsQuery query m
      → m * 5 < 2 ^ 63
      → let start = min (m * 5) 20 in
        pattern_scroll query ≡ page_to pattern_stub_data (suc m) start (start + 5)
  unfolding pattern_scroll
  pattern_scroll-page_to query m asks small =
      ap (scroll_at pattern_stub_data 5) (requested_page_lem (atoi query) m asks)
      ∙ scroll_at_small pattern_stub_data 5 m small (omega arith)

  pages :
      IsLink
      → (n m : ℕ) (query : Text) → IsQuery query m
      → m * 5 < 2 ^ 63
      → 0 < n
      → 20 ≤ m * 5 + n * 5
      → collected pattern_scroll link n query ≡ some (drop (m * 5) pattern_stub_data)
  pages linked zero m query asks small some_pages enough = absurd (omega arith)
  pages linked (suc n) m query asks small some_pages enough =
      let at_page = pattern_scroll-page_to query m asks small in
      elim (Bool-cases (ltb (min (m * 5) 20 + 5) 20)) [
        | inr last' ↦
            collected_last pattern_scroll link pattern_stub_data 5 n (suc m) (min (m * 5) 20) query
              (omega arith) (ground (arith, last')) (omega arith) at_page
            ∙ ap some (drop-min (m * 5) pattern_stub_data)
        | inl more ↦
            let goes_on : min (m * 5) 20 + 5 < 20 = ground (arith, more) in
            let whole : min (m * 5) 20 ≡ m * 5 = omega arith in
            let next_page : suc m + 1 ≡ suc (suc m) = omega arith in
            let next_start : suc m * 5 ≡ m * 5 + 5 = omega arith in
            let rest =
              pages linked n (suc m) (link (suc m + 1))
                (inr (
                  linked (suc m + 1) (omega arith) (omega arith)
                  ∙ ap (λ k. some (pos k)) next_page))
                (omega arith) (omega arith) (omega arith) in
            collected_more pattern_scroll link pattern_stub_data 5 n (suc m) (m * 5) query
              (omega arith) (omega arith) (omega arith)
              (subst
                (λ start.
                  pattern_scroll query ≡ page_to pattern_stub_data (suc m) start (start + 5))
                whole at_page)
              (rest ∙ ap (λ k. some (drop k pattern_stub_data)) next_start)
      ]

  -- A browser that asks for any page of the infinite scroll, and follows the link to the next page of
  -- each answer, collects the whole list behind the pages before, once and in its order, within four
  -- requests: no page on the way panics, and the last one has no next page. It collects the whole list
  -- where the query is no positive number, and nothing where it asks for a page behind the last. The
  -- link to a page that there is has its number, and the offset of the page asked for is an int64.
  pub pattern_scroll-collected :
      (query : Text) (m : ℕ)
      → IsLink
      → IsQuery query m
      → m * 5 < 2 ^ 63
      → collected pattern_scroll link 4 query ≡ some (drop (m * 5) pattern_stub_data)
  pattern_scroll-collected query m linked asks small =
      pages linked 4 m query asks small (omega arith) (omega arith)
