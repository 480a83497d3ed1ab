-- ===== src/Handler/Patterns/Tests.antt =====
-- Runs of the pattern showcase.
use go_performance_starter.Prelude.{
  ℕ, ◌+◌, zero, suc, inr, drop, ◌≡◌, refl, false, some, [], ◌∷◌, arith, take,
}
use go_performance_starter.Prelude.Text.{Text, codes}
use go_performance_starter.Handler.Patterns.{
  panics, scroll_page, pattern_scroll, pattern_stub_data, pattern_search, pattern_edit_save,
  pattern_favorite, pattern_toast, pattern_counter, pattern_slow,
}
use go_performance_starter.Handler.Patterns.Scroll.{collected, IsLink, pattern_scroll-collected}

first_page : pattern_scroll (codes "1") ≡ scroll_page (take 5 pattern_stub_data) 2
unfolding pattern_scroll
first_page = refl

no_page : pattern_scroll (codes "x") ≡ scroll_page (take 5 pattern_stub_data) 2
unfolding pattern_scroll
no_page = refl

last_page : pattern_scroll (codes "9") ≡ scroll_page [] 0
unfolding pattern_scroll
last_page = refl

-- (page - 1) * 5 is a negative int64.
page_of_a_negative_offset : pattern_scroll (codes "2305843009213693953") ≡ panics
unfolding pattern_scroll
page_of_a_negative_offset = refl

counter_wraps : pattern_counter (codes "1000001") ≡ 1
unfolding pattern_counter
counter_wraps = refl

slow_bound : pattern_slow (codes "9999") ≡ 1500
unfolding pattern_slow
slow_bound = refl

slow_default : pattern_slow (codes "") ≡ 800
unfolding pattern_slow
slow_default = refl

toast_default : pattern_toast (codes "info") ≡ codes "success"
unfolding pattern_toast
toast_default = refl

nothing_entered : pattern_edit_save (codes "  ") ≡ codes "(nothing entered)"
unfolding pattern_edit_save
nothing_entered = refl

favorite_flips : pattern_favorite (codes "true") ≡ false
unfolding pattern_favorite
favorite_flips = refl

search_finds : pattern_search (λ t. t) (codes " templ ") ≡ some (codes "templ", codes "templ" ∷ [])
unfolding pattern_search
search_finds = refl

-- The links, whose pages have one digit.
abbrev digit : ℕ → Text
digit n = (48 + n) ∷ []

digit-IsLink : IsLink digit
unfolding pattern_scroll
digit-IsLink zero some_page last_page' = absurd (omega arith)
digit-IsLink (suc zero) some_page last_page' = refl
digit-IsLink (suc (suc zero)) some_page last_page' = refl
digit-IsLink (suc (suc (suc zero))) some_page last_page' = refl
digit-IsLink (suc (suc (suc (suc zero)))) some_page last_page' = refl
digit-IsLink (suc (suc (suc (suc (suc n))))) some_page last_page' = absurd (omega arith)

pattern_scroll-collected_example :
    collected pattern_scroll digit 4 (codes "3") ≡ some (drop 10 pattern_stub_data)
unfolding pattern_scroll
pattern_scroll-collected_example =
    pattern_scroll-collected digit (codes "3") 2 digit-IsLink (inr refl) (omega arith)
