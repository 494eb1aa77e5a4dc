-- ===== src/Db/Users/Logins.antt =====
-- Who is found by a login (src/db/users.rs).
use ruskery.Common.{
  ◌≡◌, ◌⊎◌, Bool, false, ◌||◌, some, none, Str, str_eq, lower, arith, if◌then◌else◌,
}
use ruskery.Models.{User}
use ruskery.Error.{ok}
use ruskery.Db.{Db}
use ruskery.Db.Users.{find_by_login, create}

-- Whether an account with these columns answers to a login.
abbrev pub answers : Str → Str → Str → Bool
answers email username login =
    str_eq (lower email) (lower login) || str_eq (lower username) (lower login)

-- After an account was created, a login to which no account answered before finds it if it is its
-- e-mail address or user name but for letter case, and else finds nobody; a login to which it does
-- not answer finds whom it found before. Of several accounts that answer to one login, which the
-- two indexes allow, none is promised.
pub find_by_login-create :
    (db : Db) (id now email username password_hash : Str) (is_admin : Bool) (u : User) (db' : Db)
    (login : Str)
    → create db id now email username password_hash is_admin ≡ ok (u, db')
    → (find_by_login db login ≡ none) ⊎ (answers email username login ≡ false)
    → find_by_login db' login
      ≡ (if answers email username login then some u else find_by_login db login)
unfolding create find_by_login
find_by_login-create db id now email username password_hash is_admin u db' login h alone =
    ground arith
