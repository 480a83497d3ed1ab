-- ===== src/Auth/Anon/Listing.antt =====
-- The walk over the pages of the admin listing.
use go_performance_starter.Prelude.{
  ℕ, zero, suc, ◌≡◌, refl, sym, ap, ◌∙◌, ◌≤◌, ◌<◌, ◌↔◌, inl, inr, false, List, [], ◌∷◌, ◌++◌, ltb,
  length, append_assoc, arith, Bool-cases, subst, ltb→lt, ltb→le, lt→ltb, le→ltb,
}
use go_performance_starter.Http.{Failure, Result, ok, err, is_empty}
use go_performance_starter.Jobs.Reaper.{AdminUser}
use go_performance_starter.Auth.Anon.{
  AdminUserRecord, Transport, AuthClient, anonymous_users, page_walked, walk_pages,
  admin_list_users_page, admin_list_anonymous_users, max_admin_list_pages,
}

anonymous_users-append :
    (xs ys : List AdminUserRecord)
    → anonymous_users (xs ++ ys) ≡ anonymous_users xs ++ anonymous_users ys
unfolding anonymous_users
anonymous_users-append [] ys = refl
anonymous_users-append (x ∷ xs) ys = ground (arith, anonymous_users-append xs ys)

module _ {W : Type 0} (fetch : ℕ → W → W × Result Failure (List AdminUserRecord))
    (per_page : ℕ) where
  -- `Pages n page w w' users`: n pages in a row, the first of number `page`, of which all but the last
  -- are full, hold these users.
  pub data Pages : ℕ → ℕ → W → W → List AdminUserRecord → Type 0 where
    last :
        (page : ℕ) (w w' : W) (users : List AdminUserRecord)
        → fetch page w ≡ (w', ok users)
        → length users < per_page
        → Pages 1 page w w' users
    more :
        (n page : ℕ) (w w₁ w' : W) (users rest : List AdminUserRecord)
        → fetch page w ≡ (w₁, ok users)
        → per_page ≤ length users
        → Pages n (suc page) w₁ w' rest
        → Pages (suc n) page w w' (users ++ rest)

  Pages-walk_pages :
      (left : ℕ) {n page : ℕ} {w w' : W} {users : List AdminUserRecord} (out : List AdminUser)
      → Pages n page w w' users
      → n ≤ left
      → walk_pages fetch per_page left page out w ≡ (w', ok (out ++ anonymous_users users))
  unfolding walk_pages page_walked
  Pages-walk_pages zero out (last page w w' users e short) h = absurd (omega arith)
  Pages-walk_pages (suc left) out (last page w w' users e short) h = rw (e, lt→ltb _ _ short) refl
  Pages-walk_pages zero out (more n page w w₁ w' users rest e full pages) h = absurd (omega arith)
  Pages-walk_pages (suc left) out (more n page w w₁ w' users rest e full pages) h =
      rw (e, le→ltb _ _ full)
        (Pages-walk_pages left (out ++ anonymous_users users) pages (omega arith)
          ∙ ap (λ l. (w', ok l))
              (append_assoc out (anonymous_users users) (anonymous_users rest)
                ∙ ap (λ l. out ++ l) (sym (anonymous_users-append users rest))))

  -- The pages that a walk went through.
  abbrev IsWalked : ℕ → ℕ → List AdminUser → W → W × Result Failure (List AdminUser) → Type 0
  IsWalked left page out w (w', err e) = Unit
  IsWalked left page out w (w', ok found) =
      (n : ℕ) × (users : List AdminUserRecord) × (n ≤ left)
      × Pages n page w w' users
      × (found ≡ out ++ anonymous_users users)

  IsWalked-more :
      (left page : ℕ) (out : List AdminUser) (w w₁ : W) (users : List AdminUserRecord)
      (result : W × Result Failure (List AdminUser))
      → fetch page w ≡ (w₁, ok users)
      → per_page ≤ length users
      → IsWalked left (suc page) (out ++ anonymous_users users) w₁ result
      → IsWalked (suc left) page out w result
  IsWalked-more left page out w w₁ users (w', err e) asked full walked = tt
  IsWalked-more left page out w w₁ users (w', ok found) asked full (n, rest, few, pages, e) = (
    suc n,
    users ++ rest,
    omega arith,
    more n page w w₁ w' users rest asked full pages,
    e
        ∙ (append_assoc out (anonymous_users users) (anonymous_users rest)
            ∙ ap (λ l. out ++ l) (sym (anonymous_users-append users rest))),
  )

  page_walked-IsWalked :
      (left page : ℕ) (out : List AdminUser) (w : W)
      (answer : W × Result Failure (List AdminUserRecord))
      → fetch page w ≡ answer
      → ((out' : List AdminUser) (w₁ : W)
          → IsWalked left (suc page) out' w₁ (walk_pages fetch per_page left (suc page) out' w₁))
      → IsWalked
          (suc left)
          page
          out
          w
          (page_walked fetch per_page (walk_pages fetch per_page left (suc page)) out answer)
  unfolding page_walked
  page_walked-IsWalked left page out w (w₁, err e) asked rest = tt
  page_walked-IsWalked left page out w (w₁, ok users) asked rest =
      elim (Bool-cases (ltb (length users) per_page)) [
        | inl e ↦ rw e (1, users, omega arith, last page w w₁ users asked (ltb→lt _ _ e), refl)
        | inr e ↦ rw e (
            IsWalked-more left page out w w₁ users _ asked (ltb→le _ _ e)
              (rest (out ++ anonymous_users users) w₁))
      ]

  walk_pages-IsWalked :
      (left page : ℕ) (out : List AdminUser) (w : W)
      → IsWalked left page out w (walk_pages fetch per_page left page out w)
  unfolding walk_pages
  walk_pages-IsWalked zero page out w = tt
  walk_pages-IsWalked (suc left) page out w =
      page_walked-IsWalked left page out w (fetch page w) refl (walk_pages-IsWalked left (suc page))

-- With a key, the listing succeeds exactly if at most 100 pages in a row, from the first, can be had of
-- which all but the last are full. It then gives all their anonymous users, in order; it never gives a
-- part of them.
pub admin_list_anonymous_users-Pages :
    {W : Type 0} (net : Transport W) (a : AuthClient) (per_page : ℕ) (w w' : W)
    (out : List AdminUser)
    → is_empty a.service_role_key ≡ false
    → (admin_list_anonymous_users net a per_page w ≡ (w', ok out)) ↔ (
        (n : ℕ) × (users : List AdminUserRecord) × (n ≤ max_admin_list_pages)
        × Pages (λ page. admin_list_users_page net a page per_page) per_page n 1 w w' users
        × (out ≡ anonymous_users users))
unfolding admin_list_anonymous_users
admin_list_anonymous_users-Pages net a per_page w w' out keyed = rw keyed (
  (λ e.
      subst (IsWalked _ per_page max_admin_list_pages 1 [] w) e
        (walk_pages-IsWalked _ per_page max_admin_list_pages 1 [] w)),
  λ (n, users, few, pages, e).
      Pages-walk_pages _ per_page max_admin_list_pages [] pages few ∙ ap (λ l. (w', ok l)) (sym e),
)
