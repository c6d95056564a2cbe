-- ===== src/Sharing/Access.antt =====
-- Who gains the access to an owner's data, and who loses it.
use goal_slot_api.Base.{
  ℕ, ◌≡◌, refl, sym, ap, subst, ◌∙◌, Bool, true, false, ◌&&◌, ◌||◌, inl, inr, some, List, [], ◌∷◌,
  ◌++◌, String, str_eq, eq_iff, eq_refl, any, update_where, delete_where, arith, ok, All, All-map,
  Memᴰ, All-Memᴰ, find-some, find-any, any-snoc, any-update_where, Pairs-at, Bool-cases,
}
use goal_slot_api.Db.{User, column_eq}
use goal_slot_api.Sharing.{
  SharedAccess, Shares, share_by_id, same_value, accepted_by, delete_found, revoke_access, viewed,
  grants, has_access,
}
use goal_slot_api.Sharing.Requests.{Request, Apart, IsTable, handle}
use goal_slot_api.Sharing.Invariant.{str_eq-sym, Apart-sym, same_share}
use goal_slot_api.Sharing.Accept.{IsFor}
use goal_slot_api.Sharing.Steps.{accepts, Change, added, removed, seen, accepted, handle-Change}

module _ {ℓ} {A : Type ℓ} (p q : A → Bool) where
  any-delete_where : (xs : List A) → any q xs ≡ false → any q (delete_where p xs) ≡ false
  any-delete_where [] h = refl
  any-delete_where (x ∷ xs) h =
      let rest = any-delete_where xs (ground arith) in
      elim (Bool-cases (p x)) [ inl gone ↦ rw gone rest | inr kept ↦ rw kept (ground arith) ]

  any-delete_where-false :
      (xs : List A) → All (λ x. p x ≡ false → q x ≡ false) xs → any q (delete_where p xs) ≡ false
  any-delete_where-false [] h = refl
  any-delete_where-false (x ∷ xs) h =
      let rest = any-delete_where-false xs h.1 in
      elim (Bool-cases (p x)) [
        | inl gone ↦ rw gone rest
        | inr kept ↦ let miss = h.0 kept in rw kept (ground arith)
      ]

  -- What an update adds to a test is in a row that it wrote.
  any-update_where-new :
      (f : A → A) (xs : List A)
      → any q xs ≡ false
      → any q (update_where p f xs) ≡ true
      → (x : A) × Memᴰ x xs × (p x ≡ true) × (q (f x) ≡ true)
  any-update_where-new f [] h k = absurd (ground arith)
  any-update_where-new f (x ∷ xs) h k = elim (Bool-cases (p x)) [
    | inl hit ↦ elim (Bool-cases (q (f x))) [
      | inl here ↦ (x, Memᴰ.head refl, hit, here)
      | inr other ↦
          let k' : any q (update_where p f xs) ≡ true = rw (hit, other) at k in
          let (y, m, hit', new) = any-update_where-new f xs (ground arith) k' in
          (y, Memᴰ.tail m, hit', new)
    ]
    | inr miss ↦
        let k' : (q x || any q (update_where p f xs)) ≡ true = rw miss at k in
        let (y, m, hit', new) = any-update_where-new f xs (ground arith) (ground arith) in
        (y, Memᴰ.tail m, hit', new)
  ]

-- Access is gained by one's own acceptance only: where a request that succeeds gives a user the
-- access to an owner that the user did not have, the request is that user's acceptance of a row of
-- that owner, which was not accepted before and was for that user, by key or, but for the case of the
-- letters, by email.
pub access_gained :
    (lower : String → String) (plus_days : ℕ → ℕ → ℕ) (users : List User) (q : Request)
    (shares shares' : Shares) (user_id owner_id : String)
    → IsTable shares
    → handle lower plus_days q users shares ≡ ok shares'
    → has_access user_id owner_id shares ≡ false
    → has_access user_id owner_id shares' ≡ true
    → (accepts user_id q ≡ true)
      × ((s : SharedAccess) × Memᴰ s shares
          × (s.owner_id ≡ owner_id)
          × (s.is_accepted ≡ false)
          × IsFor lower users user_id s)
unfolding accepted_by
access_gained lower plus_days users q shares shares' user_id owner_id table e before after =
    by_change (handle-Change lower users plus_days q shares shares' table e).1
  where
    by_change :
        Change lower users q shares shares'
        → (accepts user_id q ≡ true)
          × ((s : SharedAccess) × Memᴰ s shares
              × (s.owner_id ≡ owner_id)
              × (s.is_accepted ≡ false)
              × IsFor lower users user_id s)
    by_change (added r waits eq) =
        let grown = any-snoc (grants user_id owner_id) shares r in
        let after' : has_access user_id owner_id (shares ++ r ∷ []) ≡ true = rw (← eq) after in
        absurd (ground arith)
    by_change (removed id eq) =
        let shrunk = any-delete_where (share_by_id id) (grants user_id owner_id) shares before in
        let after' : has_access user_id owner_id (delete_where (share_by_id id) shares) ≡ true =
          rw (← eq) after in
        absurd (ground arith)
    by_change (seen id now eq) =
        let same =
          any-update_where (share_by_id id) (grants user_id owner_id) (viewed now) shares
            (λ x. refl) in
        let after' : has_access user_id owner_id (update_where (share_by_id id) (viewed now) shares)
            ≡ true =
          rw (← eq) after in
        absurd (ground arith)
    by_change (accepted u s is_his m waits for_user eq) =
        let after' : has_access user_id owner_id
              (update_where (share_by_id s.id) (accepted_by u) shares)
            ≡ true =
          rw (← eq) after in
        let (x, mx, hit, new) =
          any-update_where-new (share_by_id s.id) (grants user_id owner_id) (accepted_by u) shares
            before after' in
        let row : x ≡ s = same_share shares x s table mx m hit in
        let user : u ≡ user_id = (eq_iff u user_id).0 (ground arith) in
        let owner : x.owner_id ≡ owner_id = (eq_iff x.owner_id owner_id).0 (ground arith) in
        (
          rw (← user) is_his,
          (
            s,
            m,
            ap (λ (z : SharedAccess). z.owner_id) (sym row) ∙ owner,
            waits,
            subst (λ v. IsFor lower users v s) user for_user,
          ),
        )

pub any-Memᴰ {ℓ} :
    {A : Type ℓ} (p : A → Bool) (xs : List A) (x : A) → Memᴰ x xs → p x ≡ true → any p xs ≡ true
any-Memᴰ p [] x m h = elim m [ ]
any-Memᴰ p (y ∷ ys) x (Memᴰ.head e) h =
    let here : p y ≡ true = subst (λ z. p z ≡ true) e h in ground arith
any-Memᴰ p (y ∷ ys) x (Memᴰ.tail m) h = let rest = any-Memᴰ p ys x m h in ground arith

Apart-grants :
    (s y : SharedAccess) (user_id : String)
    → Apart s y
    → s.shared_with_id ≡ some user_id
    → grants user_id s.owner_id y ≡ false
Apart-grants s y user_id apart named =
    let users : same_value s.shared_with_id y.shared_with_id ≡ column_eq y.shared_with_id user_id =
      rw named refl in
    let owners = str_eq-sym s.owner_id y.owner_id in ground arith

-- A revocation always succeeds for a row of the owner, and the user whom the row named has no access
-- to that owner after it.
pub revoke_access-has_access :
    (shares : Shares) (s : SharedAccess) (user_id : String)
    → IsTable shares
    → Memᴰ s shares
    → s.shared_with_id ≡ some user_id
    → (shares' : Shares) × (revoke_access s.owner_id s.id shares ≡ ok shares')
      × (has_access user_id s.owner_id shares' ≡ false)
unfolding revoke_access delete_found
revoke_access-has_access shares s user_id table m named =
    let test : SharedAccess → Bool = λ x. share_by_id s.id x && str_eq x.owner_id s.owner_id in
    let mine : test s ≡ true = rw (eq_refl s.id, eq_refl s.owner_id) refl in
    let (t, found) = find-any test shares (any-Memᴰ test shares s m mine) in
    let (mt, is_t) = find-some test shares found in
    let row : t ≡ s = same_share shares t s table mt m (ground arith) in
    (
      delete_where (share_by_id s.id) shares,
      rw found (ap (λ (z : SharedAccess). ok (delete_where (share_by_id z.id) shares)) row),
      any-delete_where-false (share_by_id s.id) (grants user_id s.owner_id) shares (
          All-map
            (λ y my other.
              let differs : str_eq s.id y.id ≡ false = str_eq-sym s.id y.id ∙ other in
              let apart : Apart s y =
                Pairs-at Apart (λ a b. str_eq a.id b.id ≡ false) Apart-sym
                  (λ a d. let same = eq_refl a.id in absurd (ground arith)) shares table.apart m my
                  differs in
              Apart-grants s y user_id apart named)
            shares (All-Memᴰ shares)),
    )
