-- ===== src/Sharing/Examples.antt =====
-- One owner, one invited user.
use goal_slot_api.Base.{
  ℕ, ◌+◌, ◌*◌, ◌≡◌, refl, true, false, none, some, List, [], ◌∷◌, String, arith, any, Memᴰ, ok, err,
  forbidden,
}
use goal_slot_api.Db.{external, free, User}
use goal_slot_api.Sharing.{
  SharedAccess, InviteUserDto, Shares, view, create_share, invitation, invite_user, accepted_by,
  write_accepted, accept_invitation, accept_invite, refuses, revoke_access, has_access,
}
use goal_slot_api.Sharing.Requests.{
  is_invitation, is_share, IsTable, invite, accept_by_id, Reach, nobody, request,
}
use goal_slot_api.Sharing.Accept.{IsFor}
use goal_slot_api.Sharing.Steps.{accepts, Reach-IsTable}
use goal_slot_api.Sharing.Access.{access_gained, revoke_access-has_access}
use goal_slot_api.Sharing.Expired.{accept-has_expired}

abbrev user : String → String → User
user id email = record {
  id = id;
  email = email;
  user_type = external;
  plan = free;
  unlimited_access = false;
  stripe_subscription_id = none;
  subscription_status = none;
  subscription_end_date = none;
  admin_assigned_plan = none;
  stripe_customer_id = none;
  first_payment_date = none;
  last_payment_date = none;
  invoice_pending = false;
  last_invoice_id = none;
}

abbrev friend : User
friend = user "u2" "friend@example.org"

abbrev users : List User
users = user "u1" "owner@example.org" ∷ friend ∷ []

abbrev lower : String → String
lower s = s

abbrev plus_days : ℕ → ℕ → ℕ
plus_days now days = now + days * 86400000

abbrev dto : InviteUserDto
dto = record { email = "friend@example.org"; access_level = none }

-- The invitation of the time 0, which ends at the time 604800000.
abbrev pending : SharedAccess
pending = record {
  id = "s1";
  owner_id = "u1";
  shared_with_id = some "u2";
  invite_email = some "friend@example.org";
  invite_token = some "t1";
  invite_expires = some 604800000;
  is_public_link = false;
  access_level = view;
  is_accepted = false;
  last_viewed_at = none;
}

abbrev shared : SharedAccess
shared = record pending {
  invite_email = none;
  invite_token = none;
  invite_expires = none;
  is_accepted = true;
}

invited : invite_user plus_days "s1" "t1" "u1" dto 0 users [] ≡ ok (pending ∷ [])
unfolding invite_user invitation create_share
invited = refl

accepted : accept_invite "u2" "s1" users (pending ∷ []) ≡ ok (shared ∷ [])
unfolding accept_invite write_accepted accepted_by
accepted = refl

pending-Reach : Reach lower plus_days (pending ∷ [])
pending-Reach = request users (invite "s1" "t1" "u1" dto 0) nobody invited

Reach-IsTable_example : IsTable (pending ∷ [])
Reach-IsTable_example = Reach-IsTable lower plus_days (pending ∷ []) pending-Reach

pending-IsTable : IsTable (pending ∷ [])
pending-IsTable = record {
  shaped = (is_invitation "friend@example.org" "t1" 604800000 refl refl refl refl refl, tt);
  apart = (tt, tt);
}

access_gained_example :
    (accepts "u2" (accept_by_id "u2" "s1") ≡ true)
    × ((s : SharedAccess) × Memᴰ s (pending ∷ [])
        × (s.owner_id ≡ "u1")
        × (s.is_accepted ≡ false)
        × IsFor lower users "u2" s)
access_gained_example =
    access_gained lower plus_days users (accept_by_id "u2" "s1") (pending ∷ []) (shared ∷ []) "u2"
      "u1" pending-IsTable accepted refl refl

shared-IsTable : IsTable (shared ∷ [])
shared-IsTable = record {
  shaped = (is_share "u2" refl refl refl refl refl refl, tt);
  apart = (tt, tt);
}

revoke_access-has_access_example :
    (shares' : Shares) × (revoke_access "u1" "s1" (shared ∷ []) ≡ ok shares')
    × (has_access "u2" "u1" shares' ≡ false)
revoke_access-has_access_example =
    revoke_access-has_access (shared ∷ []) shared "u2" shared-IsTable (Memᴰ.head refl) refl

-- A day late.
accept-has_expired_example :
    (accept_invitation lower "u2" "t1" 691200000 users (pending ∷ [])
      ≡ err (forbidden "Invitation has expired"))
    × ((shares' : Shares) × (accept_invite "u2" "s1" users (pending ∷ []) ≡ ok shares')
        × (has_access "u2" "u1" shares' ≡ true))
unfolding accepted_by
accept-has_expired_example =
    accept-has_expired lower users (pending ∷ []) pending friend "u2" "t1" 604800000 691200000
      pending-IsTable (Memᴰ.head refl) refl refl refl (omega arith) refl refl free_of_it
  where
    free_of_it : any (refuses (accepted_by "u2" pending)) (pending ∷ []) ≡ false
    free_of_it = refl
