-- ===== src/Sharing.antt =====
-- src/modules/sharing/sharing.service.ts on the table of shared_access, without the emails that it
-- sends and the rows of other tables that it lists.
pub mod Requests
pub mod Invariant
pub mod AcceptedRow
pub mod Accept
pub mod Steps
pub mod Access
pub mod Expired
pub mod Examples
use goal_slot_api.Base.{
  ℕ, ◌==◌, ltb, Bool, true, false, not, ◌&&◌, ◌||◌, Option, none, some, List, [], ◌∷◌, ◌++◌, String,
  str_eq, find, any, update_where, delete_where, or_else, if◌then◌else◌, not_found, forbidden,
  conflict, unique_violation, Result, ok, err, ◌>>=◌, ◌>>◌, throw_if,
}
use goal_slot_api.Db.{User, truthy, column_eq, user_by_id}

pub data AccessLevel : Type 0 where
  view edit : AccessLevel

pub record SharedAccess : Type 0 where
  pub id : String
  pub owner_id : String
  pub shared_with_id : Option String
  pub invite_email : Option String
  pub invite_token : Option String
  pub invite_expires : Option ℕ
  pub is_public_link : Bool
  pub access_level : AccessLevel
  pub is_accepted : Bool
  pub last_viewed_at : Option ℕ

pub record InviteUserDto : Type 0 where
  pub email : String
  pub access_level : Option AccessLevel

pub record CreatePublicLinkDto : Type 0 where
  pub access_level : Option AccessLevel
  pub expires_in_days : Option ℕ

abbrev pub Shares : Type 0
Shares = List SharedAccess

abbrev pub share_by_id : String → SharedAccess → Bool
share_by_id id s = str_eq s.id id

abbrev pub share_by_token : String → SharedAccess → Bool
share_by_token token s = column_eq s.invite_token token

-- Two columns that are not null and hold the same.
abbrev pub same_value : Option String → Option String → Bool
same_value none b = false
same_value (some a) b = column_eq b a

-- Two rows that a unique index refuses: by key, by token, and by owner with user or with email.
abbrev pub clashes : SharedAccess → SharedAccess → Bool
clashes r s =
    str_eq r.id s.id
    || same_value r.invite_token s.invite_token
    || (str_eq r.owner_id s.owner_id
        && (same_value r.shared_with_id s.shared_with_id
            || same_value r.invite_email s.invite_email))

unfoldable pub create_share : SharedAccess → Shares → Result Shares
create_share r shares = do throw_if (any (clashes r) shares) unique_violation; ok (shares ++ r ∷ [])

abbrev pub found_user : String → Option User → Result User
found_user message none = err (not_found message)
found_user message (some u) = ok u

abbrev pub found_share : String → Option SharedAccess → Result SharedAccess
found_share message none = err (not_found message)
found_share message (some s) = ok s

-- `sharedWith: { email }`
abbrev has_email : String → Option User → Bool
has_email email none = false
has_email email (some u) = str_eq u.email email

abbrev user_of : List User → Option String → Option User
user_of users none = none
user_of users (some id) = find (user_by_id id) users

abbrev pub invited : List User → String → String → SharedAccess → Bool
invited users owner_id email s =
    str_eq s.owner_id owner_id
    && (column_eq s.invite_email email || has_email email (user_of users s.shared_with_id))

abbrev id_of : Option User → Option String
id_of none = none
id_of (some u) = some u.id

-- `plus_days` is the local calendar's: an instant some days later.
unfoldable pub invitation :
    (ℕ → ℕ → ℕ) → String → String → String → InviteUserDto → ℕ → List User → SharedAccess
invitation plus_days fresh_id token owner_id dto now users = record {
  id = fresh_id;
  owner_id = owner_id;
  shared_with_id = id_of (find (λ u. str_eq u.email dto.email) users);
  invite_email = some dto.email;
  invite_token = some token;
  invite_expires = some (plus_days now 7);
  is_public_link = false;
  access_level = or_else dto.access_level view;
  is_accepted = false;
  last_viewed_at = none;
}

unfoldable pub invite_user :
    (ℕ → ℕ → ℕ) → String → String → String → InviteUserDto → ℕ → List User → Shares → Result Shares
invite_user plus_days fresh_id token owner_id dto now users shares = do
  (found_user "Owner not found" (find (user_by_id owner_id) users) >>= λ u. ok tt)
  throw_if (any (invited users owner_id dto.email) shares)
      (conflict "User already has access or pending invitation")
  create_share (invitation plus_days fresh_id token owner_id dto now users) shares

abbrev pub has_expired : Option ℕ → ℕ → Bool
has_expired none now = false
has_expired (some expires) now = ltb expires now

unfoldable pub accepted_by : String → SharedAccess → SharedAccess
accepted_by user_id s = record s {
  shared_with_id = some user_id;
  is_accepted = true;
  invite_token = none;
  invite_email = none;
  invite_expires = none;
}

abbrev pub refuses : SharedAccess → SharedAccess → Bool
refuses r s = not (str_eq s.id r.id) && clashes r s

-- The update of the row `s`, with the unique indexes.
unfoldable pub write_accepted : String → SharedAccess → Shares → Result Shares
write_accepted user_id s shares = do
  throw_if (any (refuses (accepted_by user_id s)) shares) unique_violation
  ok (update_where (share_by_id s.id) (accepted_by user_id) shares)

-- `a && b`, where the texts `a` that are null or empty are false.
abbrev pub lower_eq : (String → String) → Option String → String → Bool
lower_eq lower none email = false
lower_eq lower (some invited_email) email =
    truthy (some invited_email) && str_eq (lower invited_email) (lower email)

unfoldable pub is_for_this_user : (String → String) → SharedAccess → User → String → Bool
is_for_this_user lower s user user_id =
    (truthy s.shared_with_id && column_eq s.shared_with_id user_id)
    || lower_eq lower s.invite_email user.email

-- `lower` is `toLowerCase`.
unfoldable pub accept_invitation :
    (String → String) → String → String → ℕ → List User → Shares → Result Shares
accept_invitation lower user_id token now users shares =
    found_share "Invitation not found" (find (share_by_token token) shares) >>= λ s.
    throw_if (has_expired s.invite_expires now) (forbidden "Invitation has expired")
    >> (throw_if s.is_accepted (conflict "This invitation has already been accepted")
        >> (found_user "User not found" (find (user_by_id user_id) users) >>= λ user.
            throw_if (not (is_for_this_user lower s user user_id))
              (forbidden "This invitation is not for you")
            >> write_accepted user_id s shares))

abbrev pub addressed : String → String → SharedAccess → Bool
addressed user_id email s = column_eq s.shared_with_id user_id || column_eq s.invite_email email

abbrev pub open_invite : String → String → String → SharedAccess → Bool
open_invite invite_id user_id email s =
    share_by_id invite_id s && not s.is_accepted && addressed user_id email s

unfoldable pub accept_invite : String → String → List User → Shares → Result Shares
accept_invite user_id invite_id users shares =
    found_user "User not found" (find (user_by_id user_id) users) >>= λ user.
    (found_share "Invite not found or already accepted"
        (find (open_invite invite_id user_id user.email) shares)
      >>= λ s. write_accepted user_id s shares)

unfoldable pub delete_found : String → (SharedAccess → Bool) → Shares → Result Shares
delete_found message test shares =
    found_share message (find test shares) >>= λ s. ok (delete_where (share_by_id s.id) shares)

unfoldable pub decline_invite : String → String → List User → Shares → Result Shares
decline_invite user_id invite_id users shares =
    found_user "User not found" (find (user_by_id user_id) users) >>= λ user.
    delete_found "Invite not found" (λ s. share_by_id invite_id s && addressed user_id user.email s)
      shares

unfoldable pub revoke_access : String → String → Shares → Result Shares
revoke_access owner_id share_id shares =
    delete_found "Share not found" (λ s. share_by_id share_id s && str_eq s.owner_id owner_id)
      shares

unfoldable pub remove_my_access : String → String → Shares → Result Shares
remove_my_access user_id share_id shares =
    delete_found "Share not found"
      (λ s. share_by_id share_id s && column_eq s.shared_with_id user_id) shares

-- `dto.expiresInDays || 30`
abbrev pub days_or_30 : Option ℕ → ℕ
days_or_30 none = 30
days_or_30 (some days) = if days == 0 then 30 else days

unfoldable pub public_link :
    (ℕ → ℕ → ℕ) → String → String → String → CreatePublicLinkDto → ℕ → SharedAccess
public_link plus_days fresh_id token owner_id dto now = record {
  id = fresh_id;
  owner_id = owner_id;
  shared_with_id = none;
  invite_email = none;
  invite_token = some token;
  invite_expires = some (plus_days now (days_or_30 dto.expires_in_days));
  is_public_link = true;
  access_level = or_else dto.access_level view;
  is_accepted = false;
  last_viewed_at = none;
}

unfoldable pub create_public_link :
    (ℕ → ℕ → ℕ) → String → String → String → CreatePublicLinkDto → ℕ → Shares → Result Shares
create_public_link plus_days fresh_id token owner_id dto now shares =
    create_share (public_link plus_days fresh_id token owner_id dto now) shares

unfoldable pub delete_public_link : String → String → Shares → Result Shares
delete_public_link owner_id share_id shares =
    delete_found "Public link not found"
      (λ s. share_by_id share_id s && str_eq s.owner_id owner_id && s.is_public_link) shares

abbrev pub viewed : ℕ → SharedAccess → SharedAccess
viewed now s = record s { last_viewed_at = some now }

unfoldable pub mark_viewed : String → String → ℕ → Shares → Result Shares
mark_viewed share_id caller_id now shares =
    found_share "Share not found" (find (share_by_id share_id) shares) >>= λ s.
    throw_if (not (column_eq s.shared_with_id caller_id))
      (forbidden "You do not have access to this share")
    >> ok (update_where (share_by_id share_id) (viewed now) shares)

-- The row that the reads of an owner's data ask for.
abbrev pub grants : String → String → SharedAccess → Bool
grants accessor_id owner_id s =
    str_eq s.owner_id owner_id && column_eq s.shared_with_id accessor_id && s.is_accepted

abbrev pub has_access : String → String → Shares → Bool
has_access accessor_id owner_id shares = any (grants accessor_id owner_id) shares

unfoldable pub lookup_share_by_token : String → ℕ → Shares → Result SharedAccess
lookup_share_by_token token now shares =
    found_share "Invalid or expired share link" (find (share_by_token token) shares) >>= λ s.
    throw_if (has_expired s.invite_expires now) (forbidden "This share link has expired") >> ok s

unfoldable pub verify_public_token : String → ℕ → Shares → Result SharedAccess
verify_public_token token now shares = lookup_share_by_token token now shares >>= λ s.
    throw_if (not s.is_public_link) (not_found "Invalid or expired share link") >> ok s
