-- ===== src/Rpc/Models.antt =====
-- The profiles of the openbazaar3.0 library, which rpc/server.go reads field by field, and the
-- conversions that it calls. None of it is under this repository, so it is a parameter: a type for
-- each struct and a function for each field.
use obcrawler.Base.{ℕ, String, Bool, Option, List}
use obcrawler.Go.{Result}

-- models.FixedFee, models.PercentageFee, models.FixedPlusPercentageFee, or any other value
pub data FeeType : Type 0 where
  fixed_fee percentage_fee fixed_plus_percentage_fee other_fee : FeeType

pub record Models : Type 1 where
  pub Timestamp : Type 0
  -- ptypes.TimestampProto, of a time in nanoseconds
  pub timestamp_proto : ℕ → Result Timestamp
  pub Float64 : Type 0
  pub Float32 : Type 0
  -- float32(…)
  pub to_float32 : Float64 → Float32
  pub Profile : Type 0
  pub Colors : Type 0
  pub Hashes : Type 0
  pub Moderator : Type 0
  pub Fee : Type 0
  pub Value : Type 0
  pub Currency : Type 0
  pub Contact : Type 0
  pub Social : Type 0
  pub Stats : Type 0
  pub peer_id : Profile → String
  pub name : Profile → String
  pub handle : Profile → String
  pub location : Profile → String
  pub about : Profile → String
  pub short_description : Profile → String
  pub escrow_public_key : Profile → String
  pub nsfw : Profile → Bool
  pub vendor : Profile → Bool
  pub moderator : Profile → Bool
  pub colors : Profile → Colors
  pub avatar_hashes : Profile → Hashes
  pub header_hashes : Profile → Hashes
  pub store_and_forward_servers : Profile → List String
  pub last_modified : Profile → ℕ
  -- pointers, which may be nil
  pub moderator_info : Profile → Option Moderator
  pub contact_info : Profile → Option Contact
  pub stats : Profile → Option Stats
  pub primary : Colors → String
  pub secondary : Colors → String
  pub text : Colors → String
  pub highlight : Colors → String
  pub highlight_text : Colors → String
  pub tiny : Hashes → String
  pub small : Hashes → String
  pub medium : Hashes → String
  pub large : Hashes → String
  pub original : Hashes → String
  pub filename : Hashes → String
  pub description : Moderator → String
  pub terms_and_conditions : Moderator → String
  pub accepted_currencies : Moderator → List String
  pub languages : Moderator → List String
  pub fee : Moderator → Fee
  pub percentage : Fee → Float64
  pub fee_type : Fee → FeeType
  pub fixed_fee : Fee → Option Value
  -- Amount.String()
  pub amount : Value → String
  pub currency : Value → Option Currency
  -- Code.String()
  pub code : Currency → String
  pub divisibility : Currency → ℕ
  pub email : Contact → String
  pub phone_number : Contact → String
  pub website : Contact → String
  pub social : Contact → List Social
  pub social_type : Social → String
  pub username : Social → String
  pub proof : Social → String
  pub follower_count : Stats → ℕ
  pub following_count : Stats → ℕ
  pub listing_count : Stats → ℕ
  pub post_count : Stats → ℕ
  pub rating_count : Stats → ℕ
  pub average_rating : Stats → Float32
