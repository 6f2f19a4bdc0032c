-- ===== src/Auth/Samples.antt =====
-- An environment of the auth service with a table in memory, and a user.
use Prim.Native.Char.{Char}
use harvestledger.Base.{
  ℕ, zero, suc, String, Bool, true, false, ◌&&◌, Option, none, some, List, [], ◌≡◌, refl, ap, arith,
  pos, if◌then◌else◌,
}
use text.Mathlib.Text.{◌==◌ as str_eq}
use text.Mathlib.TextLemmas.{tail-eq_of_cons-eq}
use harvestledger.Store.Memory.{memory}
use harvestledger.Store.{body}
use harvestledger.Auth.{
  User, CreateUserDto, Claims, access, refresh, forgot, Secret, jwt_secret, jwt_refresh_secret,
  LoginUser,
}
use harvestledger.Auth.World.{World, Env}
use harvestledger.Auth.Users.{new_user}
use harvestledger.Auth.Users.Registration.{user_key}
use harvestledger.Auth.Sessions.Keys.{NoColon}

abbrev pub mark : Char
mark = "#"

-- Numbers in unary; ids of tokens have one mark more.
abbrev pub unary : ℕ → String
unary zero = ""
unary (suc n) = String.◌∷◌ mark (unary n)

abbrev pub compare : String → String → Bool
compare p String.[] = false
compare p (String.◌∷◌ c h) = str_eq (String.◌∷◌ c String.[]) "#" && str_eq p h

abbrev pub secret_name : Secret → String
secret_name jwt_secret = "s"
secret_name jwt_refresh_secret = "r"

-- The claims of the tokens of the run.
abbrev pub ann_login : LoginUser
ann_login = record { id = 1; rol = none }

abbrev pub kind : Claims → String
kind (access _) = "a"
kind (refresh _ _) = "b"
kind (forgot _ _ _) = "c"

abbrev pub claims_of : String → Option (Claims × ℕ)
claims_of t =
    if str_eq t "a"
    then some (access ann_login, 1000)
    else if str_eq t "b"
    then some (refresh ann_login (unary 2), 1000)
    else if str_eq t "c"
    then some (forgot 1 "ann@farm" 50, 1000)
    else none

abbrev pub env : Env (List User) ℕ ℕ ℕ
env = record {
  users = memory user_key;
  bucket = record { upload = λ key file o. (none, o); get_object = λ key o. body o };
  to_string = unary;
  uuid = λ n. unary (suc n);
  hash = λ n p. String.◌∷◌ mark p;
  compare = compare;
  sign = λ secret now ttl claims. kind claims;
  verify = λ secret now t. claims_of t;
  outbox_accepts = λ w. true;
  commits = λ w. true;
  context = [];
}

abbrev pub ann_dto : CreateUserDto
ann_dto = record {
  first_name = "Ann";
  last_name = "Elm";
  email = "ann@farm";
  password = "corn";
  photo = none;
  document_type = none;
  document_number = pos 7;
  gender = none;
  date_of_birth = none;
  country = none;
  state = none;
  city = none;
}

abbrev pub empty : World (List User) ℕ
empty = record { users = []; keys = []; draws = 0; outbox = []; outbox_seq = 1; objects = 0 }

abbrev pub ann : User
ann = new_user ann_dto "#corn" 1

pub NoColon-unary : (n : ℕ) → NoColon (unary n)
NoColon-unary zero = tt
NoColon-unary (suc n) = ((λ e. ground (arith, e)), NoColon-unary n)

pub distinct : (m n : ℕ) → unary (suc m) ≡ unary (suc n) → m ≡ n
distinct zero zero e = refl
distinct zero (suc n) e = absurd (cc (tail-eq_of_cons-eq e))
distinct (suc m) zero e = absurd (cc (tail-eq_of_cons-eq e))
distinct (suc m) (suc n) e = ap suc (distinct m n (tail-eq_of_cons-eq e))
