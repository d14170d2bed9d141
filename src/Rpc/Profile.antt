-- ===== src/Rpc/Profile.antt =====
-- The message that Subscribe of rpc/server.go makes of a profile, with the messages of
-- rpc/pb/crawler.proto.
pub mod Lossless
use obcrawler.Base.{ℕ, String, Bool, Option, none, some, List, [], ◌∷◌, ◌++◌, ◌%◌, ◌≡◌, refl, ap}
use obcrawler.Go.{Result, ok, err}
use obcrawler.Rpc.Models.{
  Models, FeeType, fixed_fee, percentage_fee, fixed_plus_percentage_fee, other_fee,
}

pub record PbColors : Type 0 where
  pub primary : String
  pub secondary : String
  pub text : String
  pub highlight : String
  pub highlight_text : String

pub record PbHashes : Type 0 where
  pub tiny : String
  pub small : String
  pub medium : String
  pub large : String
  pub original : String
  pub filename : String

pub record PbCurrency : Type 0 where
  pub code : String
  pub divisibility : ℕ

pub record PbValue : Type 0 where
  pub currency : Option PbCurrency
  pub amount : String

-- The enum FeeType, whose zero value is FixedFee.
pub data PbFeeType : Type 0 where
  pb_fixed_fee pb_percentage_fee pb_fixed_plus_percentage_fee : PbFeeType

pub record PbSocial : Type 0 where
  pub social_type : String
  pub username : String
  pub proof : String

pub record PbContact : Type 0 where
  pub website : String
  pub email : String
  pub phone_number : String
  pub social : List PbSocial

module _ (M : Models) where
  pub record PbFee : Type 0 where
    pub fixed_fee : Option PbValue
    pub percentage : M.Float32
    pub fee_type : PbFeeType

  pub record PbModerator : Type 0 where
    pub description : String
    pub terms_and_conditions : String
    pub languages : List String
    pub accepted_currencies : List String
    pub fee : PbFee

  pub record PbStats : Type 0 where
    pub follower_count : ℕ
    pub following_count : ℕ
    pub listing_count : ℕ
    pub rating_count : ℕ
    pub post_count : ℕ
    pub average_rating : M.Float32

  pub record PbProfile : Type 0 where
    pub peer_id : String
    pub name : String
    pub handle : String
    pub location : String
    pub about : String
    pub short_description : String
    pub public_key : String
    pub nsfw : Bool
    pub vendor : Bool
    pub moderator : Bool
    pub moderator_info : Option PbModerator
    pub contact_info : Option PbContact
    pub colors : PbColors
    pub avatar_hashes : PbHashes
    pub header_hashes : PbHashes
    pub stats : Option PbStats
    pub store_and_forward_servers : List String
    pub last_modified : M.Timestamp

  unfoldable pub pb_colors : M.Colors → PbColors
  pb_colors c = record {
    primary = M.primary c;
    secondary = M.secondary c;
    text = M.text c;
    highlight = M.highlight c;
    highlight_text = M.highlight_text c;
  }

  unfoldable pub pb_hashes : M.Hashes → PbHashes
  pb_hashes h = record {
    tiny = M.tiny h;
    small = M.small h;
    medium = M.medium h;
    large = M.large h;
    original = M.original h;
    filename = M.filename h;
  }

  -- uint32(…)
  unfoldable pub pb_currency : M.Currency → PbCurrency
  pb_currency c = record { code = M.code c; divisibility = M.divisibility c % 4294967296 }

  abbrev pub if_some : {A B : Type 0} → (A → B) → Option A → Option B
  if_some f none = none
  if_some f (some a) = some (f a)

  unfoldable pub pb_value : M.Value → PbValue
  unfolding pb_currency
  pb_value v = record { currency = if_some pb_currency (M.currency v); amount = M.amount v }

  -- The switch has no default, so another value leaves the zero value.
  abbrev pub pb_fee_type : FeeType → PbFeeType
  pb_fee_type fixed_fee = pb_fixed_fee
  pb_fee_type percentage_fee = pb_percentage_fee
  pb_fee_type fixed_plus_percentage_fee = pb_fixed_plus_percentage_fee
  pb_fee_type other_fee = pb_fixed_fee

  unfoldable pub pb_fee : M.Fee → PbFee
  unfolding pb_value
  pb_fee f = record {
    fixed_fee = if_some pb_value (M.fixed_fee f);
    percentage = M.to_float32 (M.percentage f);
    fee_type = pb_fee_type (M.fee_type f);
  }

  unfoldable pub pb_moderator : M.Moderator → PbModerator
  unfolding pb_fee
  pb_moderator m = record {
    description = M.description m;
    terms_and_conditions = M.terms_and_conditions m;
    languages = M.languages m;
    accepted_currencies = M.accepted_currencies m;
    fee = pb_fee (M.fee m);
  }

  abbrev pub pb_social : M.Social → PbSocial
  pb_social s = record { social_type = M.social_type s; username = M.username s; proof = M.proof s }

  -- The loop that appends one account after the other.
  unfoldable pub append_social : List PbSocial → List M.Social → List PbSocial
  append_social out [] = out
  append_social out (s ∷ ss) = append_social (out ++ pb_social s ∷ []) ss

  unfoldable pub pb_contact : M.Contact → PbContact
  unfolding append_social
  pb_contact c = record {
    website = M.website c;
    email = M.email c;
    phone_number = M.phone_number c;
    social = append_social [] (M.social c);
  }

  unfoldable pub pb_stats : M.Stats → PbStats
  pb_stats s = record {
    follower_count = M.follower_count s;
    following_count = M.following_count s;
    listing_count = M.listing_count s;
    rating_count = M.rating_count s;
    post_count = M.post_count s;
    average_rating = M.average_rating s;
  }

  unfoldable pub pb_profile : M.Profile → M.Timestamp → PbProfile
  unfolding pb_colors pb_hashes pb_moderator pb_contact pb_stats
  pb_profile o last_modified = record {
    peer_id = M.peer_id o;
    name = M.name o;
    handle = M.handle o;
    location = M.location o;
    about = M.about o;
    short_description = M.short_description o;
    public_key = M.escrow_public_key o;
    nsfw = M.nsfw o;
    vendor = M.vendor o;
    moderator = M.moderator o;
    moderator_info = if_some pb_moderator (M.moderator_info o);
    contact_info = if_some pb_contact (M.contact_info o);
    colors = pb_colors (M.colors o);
    avatar_hashes = pb_hashes (M.avatar_hashes o);
    header_hashes = pb_hashes (M.header_hashes o);
    stats = if_some pb_stats (M.stats o);
    store_and_forward_servers = M.store_and_forward_servers o;
    last_modified = last_modified;
  }
