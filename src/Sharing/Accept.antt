-- ===== src/Sharing/Accept.antt =====
-- What the two ways to accept an invitation ask of the row.
use goal_slot_api.Base.{
  ℕ, ◌≡◌, refl, ap, true, false, not, inl, inr, Option, none, some, List, String, eq_iff, find,
  arith, ok, throw_if, >>=-eq-ok, >>-eq-ok, Memᴰ, find-some, Bool-cases, forbidden, conflict,
}
use goal_slot_api.Db.{User, column_eq, user_by_id}
use goal_slot_api.Sharing.{
  SharedAccess, Shares, share_by_token, found_user, found_share, has_expired, write_accepted,
  lower_eq, is_for_this_user, accept_invitation, open_invite, addressed, accept_invite,
}
use goal_slot_api.Sharing.Requests.{HasShape, is_invitation, is_share, is_link}
use goal_slot_api.Sharing.Invariant.{throw_if-ok, found_share-ok}

-- A row that names the user, or whose email is that of the user but for the case of its letters.
pub data IsFor (lower : String → String) (users : List User) (user_id : String) (s : SharedAccess)
    : Type 0 where
  by_id : s.shared_with_id ≡ some user_id → IsFor lower users user_id s
  by_email :
      (email : String) (u : User)
      → s.invite_email ≡ some email
      → find (user_by_id user_id) users ≡ some u
      → lower email ≡ lower u.email
      → IsFor lower users user_id s

column_eq-some : (c : Option String) (key : String) → column_eq c key ≡ true → c ≡ some key
column_eq-some none key h = absurd (ground arith)
column_eq-some (some v) key h = ap some ((eq_iff v key).0 h)

lower_eq-some :
    (lower : String → String) (c : Option String) (email : String)
    → lower_eq lower c email ≡ true
    → (invited_email : String) × (c ≡ some invited_email) × (lower invited_email ≡ lower email)
lower_eq-some lower none email h = absurd (ground arith)
lower_eq-some lower (some v) email h = (v, refl, (eq_iff (lower v) (lower email)).0 (ground arith))

found_user-ok :
    (message : String) (o : Option User) (u : User) → found_user message o ≡ ok u → o ≡ some u
found_user-ok message none u e = cc
found_user-ok message (some v) u e = let same : v ≡ u = cc in ap some same

-- A public link is for nobody.
pub IsFor-private :
    (lower : String → String) (users : List User) (user_id : String) (s : SharedAccess)
    → HasShape s
    → IsFor lower users user_id s
    → s.is_public_link ≡ false
IsFor-private lower users user_id s (is_invitation email token expires a b c d e) for_user = b
IsFor-private lower users user_id s (is_share v a b c d e f) for_user = b
IsFor-private lower users user_id s (is_link token expires a b c d e f) (by_id named) = cc
IsFor-private lower users user_id s (is_link token expires a b c d e f)
      (by_email email u mailed found same) =
    cc

module _ (lower : String → String) (users : List User) where
  for_this_user-IsFor :
      (user_id : String) (u : User) (s : SharedAccess)
      → find (user_by_id user_id) users ≡ some u
      → is_for_this_user lower s u user_id ≡ true
      → IsFor lower users user_id s
  unfolding is_for_this_user
  for_this_user-IsFor user_id u s found h = elim (Bool-cases (column_eq s.shared_with_id user_id)) [
    | inl named ↦ by_id (column_eq-some s.shared_with_id user_id named)
    | inr other ↦
        let (email, mailed, same) = lower_eq-some lower s.invite_email u.email (ground arith) in
        by_email email u mailed found same
  ]

  addressed-IsFor :
      (user_id : String) (u : User) (s : SharedAccess)
      → find (user_by_id user_id) users ≡ some u
      → addressed user_id u.email s ≡ true
      → IsFor lower users user_id s
  addressed-IsFor user_id u s found h = elim (Bool-cases (column_eq s.shared_with_id user_id)) [
    | inl named ↦ by_id (column_eq-some s.shared_with_id user_id named)
    | inr other ↦
        by_email u.email u (column_eq-some s.invite_email u.email (ground arith)) found refl
  ]

  pub accept_invitation-inv :
      (user_id token : String) (now : ℕ) (shares shares' : Shares)
      → accept_invitation lower user_id token now users shares ≡ ok shares'
      → (s : SharedAccess) × Memᴰ s shares
        × (s.is_accepted ≡ false)
        × IsFor lower users user_id s
        × (write_accepted user_id s shares ≡ ok shares')
  unfolding accept_invitation
  accept_invitation-inv user_id token now shares shares' e =
      let (s, got, e1) =
        >>=-eq-ok (found_share "Invitation not found" (find (share_by_token token) shares)) _ e in
      let (m, has_token) =
        find-some (share_by_token token) shares
          (found_share-ok "Invitation not found" (find (share_by_token token) shares) s got) in
      let (in_time, e2) =
        >>-eq-ok (throw_if (has_expired s.invite_expires now) (forbidden "Invitation has expired"))
          _ e1 in
      let (waits, e3) =
        >>-eq-ok (throw_if s.is_accepted (conflict "This invitation has already been accepted")) _
          e2 in
      let (u, got_user, e4) =
        >>=-eq-ok (found_user "User not found" (find (user_by_id user_id) users)) _ e3 in
      let (for_user, last) =
        >>-eq-ok
          (throw_if (not (is_for_this_user lower s u user_id))
            (forbidden "This invitation is not for you"))
          _ e4 in
      let is_his =
        throw_if-ok (not (is_for_this_user lower s u user_id))
          (forbidden "This invitation is not for you") for_user in
      (
        s,
        m,
        throw_if-ok s.is_accepted (conflict "This invitation has already been accepted") waits,
        for_this_user-IsFor user_id u s
            (found_user-ok "User not found" (find (user_by_id user_id) users) u got_user)
            (ground arith),
        last,
      )

  pub accept_invite-inv :
      (user_id invite_id : String) (shares shares' : Shares)
      → accept_invite user_id invite_id users shares ≡ ok shares'
      → (s : SharedAccess) × Memᴰ s shares
        × (s.is_accepted ≡ false)
        × IsFor lower users user_id s
        × (write_accepted user_id s shares ≡ ok shares')
  unfolding accept_invite
  accept_invite-inv user_id invite_id shares shares' e =
      let (u, got, e') =
        >>=-eq-ok (found_user "User not found" (find (user_by_id user_id) users)) _ e in
      let user = found_user-ok "User not found" (find (user_by_id user_id) users) u got in
      let (s, got', last) =
        >>=-eq-ok
          (found_share "Invite not found or already accepted"
            (find (open_invite invite_id user_id u.email) shares))
          _ e' in
      let row =
        found_share-ok "Invite not found or already accepted"
          (find (open_invite invite_id user_id u.email) shares) s got' in
      let (m, is_open) = find-some (open_invite invite_id user_id u.email) shares row in
      (s, m, ground arith, addressed-IsFor user_id u s user (ground arith), last)
