-- ===== src/Auth/Identity.antt =====
-- internal/auth/middleware.go: the identity that the claims of a token give. The text of the token
-- is taken apart by packages outside the repository; `decode` is what they give, `none` on an error.
use quota_management.Prelude.{
  String, Bool, false, Option, none, some, List, [], ◌∷◌, str_eq, if◌then◌else◌,
}

pub record Identity : Type 0 where
  pub subject : String
  pub email : String
  pub org_id : String
  pub team_id : String
  pub is_org : Bool
  pub is_team_admin : Bool
  pub user_id : String

-- A value of a claim, as JSON has it.
pub data Claim : Type 0 where
  text : String → Claim
  flag : Bool → Claim
  other : Claim

abbrev pub claim : String → List (String × Claim) → Claim
claim k [] = other
claim k ((n, v) ∷ cs) = if str_eq n k then v else claim k cs

abbrev text_claim : Claim → String
text_claim (text s) = s
text_claim (flag b) = ""
text_claim other = ""

-- A Boolean, or its name.
abbrev flag_claim : Claim → Bool
flag_claim (text s) = str_eq s "true"
flag_claim (flag b) = b
flag_claim other = false

abbrev pub identity_of : List (String × Claim) → Identity
identity_of cs = record {
  subject = text_claim (claim "sub" cs);
  email = text_claim (claim "email" cs);
  org_id = text_claim (claim "org_id" cs);
  team_id = text_claim (claim "team_id" cs);
  is_org = flag_claim (claim "is_org" cs);
  is_team_admin = flag_claim (claim "is_team_admin" cs);
  user_id = text_claim (claim "sub" cs);
}

abbrev pub parse_jwt : (String → Option (List (String × Claim))) → String → Option Identity
parse_jwt decode token = elim (decode token) [ none ↦ none | some cs ↦ some (identity_of cs) ]

-- `OptionalAuthMiddleware`: a header that is absent or cannot be read leaves no identity.
abbrev pub optional_auth : (String → Option (List (String × Claim))) → String → Option Identity
optional_auth decode header = if str_eq header "" then none else parse_jwt decode header
