-- ===== src/Sharing/Expired.antt =====
-- The two ways to accept an invitation that has expired.
use goal_slot_api.Base.{
  ℕ, ◌<◌, ◌≡◌, refl, ap, ◌∙◌, true, false, inl, inr, some, List, String, str_eq, eq_refl, find, any,
  update_where, arith, ok, err, Memᴰ, Memᴰ-update_where, find-some, find-any, Pairs-at, Bool-cases,
  forbidden, updated,
}
use goal_slot_api.Db.{User, column_eq, user_by_id}
use goal_slot_api.Sharing.{
  SharedAccess, Shares, share_by_id, share_by_token, same_value, has_expired, accepted_by, refuses,
  write_accepted, accept_invitation, open_invite, accept_invite, grants, has_access,
}
use goal_slot_api.Sharing.Requests.{Apart, IsTable}
use goal_slot_api.Sharing.Invariant.{Apart-sym, same_share}
use goal_slot_api.Sharing.Access.{any-Memᴰ}

-- A token names one row.
find-share_by_token :
    (shares : Shares) (s : SharedAccess) (token : String)
    → IsTable shares
    → Memᴰ s shares
    → s.invite_token ≡ some token
    → find (share_by_token token) shares ≡ some s
find-share_by_token shares s token table m has =
    let hit : share_by_token token s ≡ true = rw has (eq_refl token) in
    let (t, found) =
      find-any (share_by_token token) shares (any-Memᴰ (share_by_token token) shares s m hit) in
    let (mt, is_t) = find-some (share_by_token token) shares found in
    elim (Bool-cases (str_eq t.id s.id)) [
      | inl same ↦ found ∙ ap some (same_share shares t s table mt m same)
      | inr differ ↦
          let apart : Apart s t = Apart-sym t s (
            Pairs-at Apart (λ a b. str_eq a.id b.id ≡ false) Apart-sym
              (λ a d. let same = eq_refl a.id in absurd (ground arith)) shares table.apart mt m
              differ) in
          let tokens : same_value s.invite_token t.invite_token ≡ true = rw has is_t in
          absurd (ground arith)
    ]

find-open_invite :
    (shares : Shares) (s : SharedAccess) (user_id email : String)
    → IsTable shares
    → Memᴰ s shares
    → s.is_accepted ≡ false
    → s.invite_email ≡ some email
    → find (open_invite s.id user_id email) shares ≡ some s
find-open_invite shares s user_id email table m waits mailed =
    let test = open_invite s.id user_id email in
    let to : column_eq s.invite_email email ≡ true = rw mailed (eq_refl email) in
    let same_id = eq_refl s.id in
    let hit : test s ≡ true = ground arith in
    let (t, found) = find-any test shares (any-Memᴰ test shares s m hit) in
    let (mt, is_t) = find-some test shares found in
    found ∙ ap some (same_share shares t s table mt m (ground arith))

-- An invitation to a user's own email, which has expired and is the only row of its owner for that
-- user: its token is refused as expired, and its key is still accepted, which gives the access.
pub accept-has_expired :
    (lower : String → String) (users : List User) (shares : Shares) (s : SharedAccess) (u : User)
    (user_id token : String) (expires now : ℕ)
    → IsTable shares
    → Memᴰ s shares
    → s.is_accepted ≡ false
    → s.invite_token ≡ some token
    → s.invite_expires ≡ some expires
    → expires < now
    → find (user_by_id user_id) users ≡ some u
    → s.invite_email ≡ some u.email
    → any (refuses (accepted_by user_id s)) shares ≡ false
    → (accept_invitation lower user_id token now users shares
        ≡ err (forbidden "Invitation has expired"))
      × ((shares' : Shares) × (accept_invite user_id s.id users shares ≡ ok shares')
          × (has_access user_id s.owner_id shares' ≡ true))
unfolding accept_invitation accept_invite write_accepted accepted_by
accept-has_expired lower users shares s u user_id token expires now table m waits has expiring late
      found mailed free =
    let late' : has_expired s.invite_expires now ≡ true = rw expiring (ground arith) in
    (
      rw (find-share_by_token shares s token table m has, late') refl,
      (
        update_where (share_by_id s.id) (accepted_by user_id) shares,
        rw (found, find-open_invite shares s user_id u.email table m waits mailed, free) refl,
        any-Memᴰ (grants user_id s.owner_id)
            (update_where (share_by_id s.id) (accepted_by user_id) shares)
            (updated (share_by_id s.id) (accepted_by user_id) s)
            (Memᴰ-update_where (share_by_id s.id) (accepted_by user_id) shares m)
            (rw (eq_refl s.id, eq_refl s.owner_id, eq_refl user_id) refl),
      ),
    )
