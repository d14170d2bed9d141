-- ===== src/Rpc/Profile/Lossless.antt =====
-- What a client can tell of a profile from the message.
use obcrawler.Base.{
  ◌≡◌, ◌∙◌, ap, sym, Option, none, some, List, [], ◌∷◌, ◌++◌, map, append_assoc, append-nil,
}
use obcrawler.Rpc.Models.{Models}
use obcrawler.Rpc.Profile.{
  PbSocial, PbProfile, PbColors, PbHashes, PbContact, PbModerator, PbValue, PbStats, if_some,
  pb_colors, pb_hashes, pb_moderator, pb_fee, pb_value, pb_currency, pb_fee_type, PbCurrency,
  pb_social, append_social, pb_contact, pb_stats, pb_profile,
}

-- Both are there and related, or neither is there.
abbrev pub Both : {A : Type 0} → (A → A → Type 0) → Option A → Option A → Type 0
Both R none none = Unit
Both R (some a) (some b) = R a b
Both R none (some b) = ⊥
Both R (some a) none = ⊥

module _ (M : Models) where
  append_social-map :
      (out : List PbSocial) (ss : List M.Social)
      → append_social M out ss ≡ out ++ map (pb_social M) ss
  unfolding append_social
  append_social-map out [] = sym (append-nil out)
  append_social-map out (s ∷ ss) =
      append_social-map (out ++ pb_social M s ∷ []) ss ∙ append_assoc out (pb_social M s ∷ []) _

  -- The accounts, in their order.
  abbrev pub accounts : M.Contact → List PbSocial
  accounts c = map (pb_social M) (M.social c)

  pub record SameHashes (g h : M.Hashes) : Type 0 where
    pub tiny : M.tiny g ≡ M.tiny h
    pub small : M.small g ≡ M.small h
    pub medium : M.medium g ≡ M.medium h
    pub large : M.large g ≡ M.large h
    pub original : M.original g ≡ M.original h
    pub filename : M.filename g ≡ M.filename h

  pub record SameColors (c d : M.Colors) : Type 0 where
    pub primary : M.primary c ≡ M.primary d
    pub secondary : M.secondary c ≡ M.secondary d
    pub text : M.text c ≡ M.text d
    pub highlight : M.highlight c ≡ M.highlight d
    pub highlight_text : M.highlight_text c ≡ M.highlight_text d

  pub record SameContact (c d : M.Contact) : Type 0 where
    pub email : M.email c ≡ M.email d
    pub phone_number : M.phone_number c ≡ M.phone_number d
    pub website : M.website c ≡ M.website d
    pub social : accounts c ≡ accounts d

  pub record SameValue (v w : M.Value) : Type 0 where
    pub amount : M.amount v ≡ M.amount w
    pub currency : Both (λ c d. M.code c ≡ M.code d) (M.currency v) (M.currency w)

  pub record SameStats (x y : M.Stats) : Type 0 where
    pub follower_count : M.follower_count x ≡ M.follower_count y
    pub following_count : M.following_count x ≡ M.following_count y
    pub listing_count : M.listing_count x ≡ M.listing_count y
    pub rating_count : M.rating_count x ≡ M.rating_count y
    pub post_count : M.post_count x ≡ M.post_count y
    pub average_rating : M.average_rating x ≡ M.average_rating y

  -- The fee but for its percentage, which is rounded, the divisibility of its currency, which is
  -- cut to 32 bits, and a type that the message cannot show.
  pub record SameModerator (m n : M.Moderator) : Type 0 where
    pub description : M.description m ≡ M.description n
    pub terms_and_conditions : M.terms_and_conditions m ≡ M.terms_and_conditions n
    pub languages : M.languages m ≡ M.languages n
    pub accepted_currencies : M.accepted_currencies m ≡ M.accepted_currencies n
    pub fee_type : pb_fee_type M (M.fee_type (M.fee m)) ≡ pb_fee_type M (M.fee_type (M.fee n))
    pub fixed_fee : Both SameValue (M.fixed_fee (M.fee m)) (M.fixed_fee (M.fee n))

  pub record SameProfile (p q : M.Profile) : Type 0 where
    pub peer_id : M.peer_id p ≡ M.peer_id q
    pub name : M.name p ≡ M.name q
    pub handle : M.handle p ≡ M.handle q
    pub location : M.location p ≡ M.location q
    pub about : M.about p ≡ M.about q
    pub short_description : M.short_description p ≡ M.short_description q
    pub escrow_public_key : M.escrow_public_key p ≡ M.escrow_public_key q
    pub nsfw : M.nsfw p ≡ M.nsfw q
    pub vendor : M.vendor p ≡ M.vendor q
    pub moderator : M.moderator p ≡ M.moderator q
    pub store_and_forward_servers : M.store_and_forward_servers p ≡ M.store_and_forward_servers q
    pub colors : SameColors (M.colors p) (M.colors q)
    pub avatar_hashes : SameHashes (M.avatar_hashes p) (M.avatar_hashes q)
    pub header_hashes : SameHashes (M.header_hashes p) (M.header_hashes q)
    pub contact_info : Both SameContact (M.contact_info p) (M.contact_info q)
    pub moderator_info : Both SameModerator (M.moderator_info p) (M.moderator_info q)
    pub stats : Both SameStats (M.stats p) (M.stats q)

  if_some-Both :
      {A B : Type 0} (R : A → A → Type 0) (f : A → B)
      → ((a b : A) → f a ≡ f b → R a b)
      → (x y : Option A) → if_some M f x ≡ if_some M f y
      → Both R x y
  if_some-Both R f k none none e = tt
  if_some-Both R f k none (some b) e = cc
  if_some-Both R f k (some a) none e = cc
  if_some-Both R f k (some a) (some b) e = k a b cc

  hashes_same : (g h : M.Hashes) → pb_hashes M g ≡ pb_hashes M h → SameHashes g h
  unfolding pb_hashes
  hashes_same g h e = record {
    tiny = ap (λ (k : PbHashes). k.tiny) e;
    small = ap (λ (k : PbHashes). k.small) e;
    medium = ap (λ (k : PbHashes). k.medium) e;
    large = ap (λ (k : PbHashes). k.large) e;
    original = ap (λ (k : PbHashes). k.original) e;
    filename = ap (λ (k : PbHashes). k.filename) e;
  }

  colors_same : (c d : M.Colors) → pb_colors M c ≡ pb_colors M d → SameColors c d
  unfolding pb_colors
  colors_same c d e = record {
    primary = ap (λ (k : PbColors). k.primary) e;
    secondary = ap (λ (k : PbColors). k.secondary) e;
    text = ap (λ (k : PbColors). k.text) e;
    highlight = ap (λ (k : PbColors). k.highlight) e;
    highlight_text = ap (λ (k : PbColors). k.highlight_text) e;
  }

  contact_same : (c d : M.Contact) → pb_contact M c ≡ pb_contact M d → SameContact c d
  unfolding pb_contact
  contact_same c d e = record {
    email = ap (λ (k : PbContact). k.email) e;
    phone_number = ap (λ (k : PbContact). k.phone_number) e;
    website = ap (λ (k : PbContact). k.website) e;
    social =
        sym (append_social-map [] (M.social c))
        ∙ ap (λ (k : PbContact). k.social) e
        ∙ append_social-map [] (M.social d);
  }

  value_same : (v w : M.Value) → pb_value M v ≡ pb_value M w → SameValue v w
  unfolding pb_value pb_currency
  value_same v w e = record {
    amount = ap (λ (k : PbValue). k.amount) e;
    currency =
        if_some-Both _ (pb_currency M) (λ c d f. ap (λ (k : PbCurrency). k.code) f) _ _
          (ap (λ (k : PbValue). k.currency) e);
  }

  stats_same : (x y : M.Stats) → pb_stats M x ≡ pb_stats M y → SameStats x y
  unfolding pb_stats
  stats_same x y e = record {
    follower_count = ap (λ (k : PbStats M). k.follower_count) e;
    following_count = ap (λ (k : PbStats M). k.following_count) e;
    listing_count = ap (λ (k : PbStats M). k.listing_count) e;
    rating_count = ap (λ (k : PbStats M). k.rating_count) e;
    post_count = ap (λ (k : PbStats M). k.post_count) e;
    average_rating = ap (λ (k : PbStats M). k.average_rating) e;
  }

  moderator_same : (m n : M.Moderator) → pb_moderator M m ≡ pb_moderator M n → SameModerator m n
  unfolding pb_moderator pb_fee
  moderator_same m n e = record {
    description = ap (λ (k : PbModerator M). k.description) e;
    terms_and_conditions = ap (λ (k : PbModerator M). k.terms_and_conditions) e;
    languages = ap (λ (k : PbModerator M). k.languages) e;
    accepted_currencies = ap (λ (k : PbModerator M). k.accepted_currencies) e;
    fee_type = ap (λ (k : PbModerator M). k.fee.fee_type) e;
    fixed_fee =
        if_some-Both SameValue (pb_value M) value_same _ _
          (ap (λ (k : PbModerator M). k.fee.fixed_fee) e);
  }

  -- Two profiles of which a client gets the same message are the same in their texts, flags, colours,
  -- hashes, servers, contacts, statistics and moderator terms, but for the moderator's percentage,
  -- the divisibility of a currency, and the fee types that the message does not tell apart. In
  -- particular, a part that is missing in one is missing in the other, and the social accounts come
  -- in their order.
  pub pb_profile-SameProfile :
      (p q : M.Profile) (t u : M.Timestamp) → pb_profile M p t ≡ pb_profile M q u → SameProfile p q
  unfolding pb_profile
  pb_profile-SameProfile p q t u e = record {
    peer_id = ap (λ (k : PbProfile M). k.peer_id) e;
    name = ap (λ (k : PbProfile M). k.name) e;
    handle = ap (λ (k : PbProfile M). k.handle) e;
    location = ap (λ (k : PbProfile M). k.location) e;
    about = ap (λ (k : PbProfile M). k.about) e;
    short_description = ap (λ (k : PbProfile M). k.short_description) e;
    escrow_public_key = ap (λ (k : PbProfile M). k.public_key) e;
    nsfw = ap (λ (k : PbProfile M). k.nsfw) e;
    vendor = ap (λ (k : PbProfile M). k.vendor) e;
    moderator = ap (λ (k : PbProfile M). k.moderator) e;
    store_and_forward_servers = ap (λ (k : PbProfile M). k.store_and_forward_servers) e;
    colors = colors_same _ _ (ap (λ (k : PbProfile M). k.colors) e);
    avatar_hashes = hashes_same _ _ (ap (λ (k : PbProfile M). k.avatar_hashes) e);
    header_hashes = hashes_same _ _ (ap (λ (k : PbProfile M). k.header_hashes) e);
    contact_info =
        if_some-Both SameContact (pb_contact M) contact_same _ _
          (ap (λ (k : PbProfile M). k.contact_info) e);
    moderator_info =
        if_some-Both SameModerator (pb_moderator M) moderator_same _ _
          (ap (λ (k : PbProfile M). k.moderator_info) e);
    stats =
        if_some-Both SameStats (pb_stats M) stats_same _ _ (ap (λ (k : PbProfile M). k.stats) e);
  }
