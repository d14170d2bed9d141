-- ===== src/Tests/Rpc.antt =====
-- Witnesses on the gRPC server.
use obcrawler.Base.{
  ℕ, ◌==◌, String, true, false, ◌≡◌, ◌≢◌, refl, Option, none, some, List, [], ◌∷◌, ◌++◌, map,
  if◌then◌else◌,
}
use obcrawler.Base.Tests.{string_dec}
use obcrawler.Go.{GoError, foreign, ok, err}
use obcrawler.Repo.Memory.{memory, memory-IsLawful}
use obcrawler.Repo.Memory.Table.{first_row}
use obcrawler.Crawler.Worker.Defs.{Object, profile, listing}
use obcrawler.Crawler.System.{here}
use obcrawler.Rpc.Models.{Models, other_fee}
use obcrawler.Rpc.Profile.Lossless.{SameProfile, pb_profile-SameProfile}
use obcrawler.Rpc.Stream.{
  obj, gone, ended, UserData, messages, subscribe_loop, subscribe_loop-messages,
}
use obcrawler.Crawler.Peers.{ban_node}
use obcrawler.Rpc.Unary.{rpc_ban_node, ban_request, crawl_request, grpc}
use obcrawler.Rpc.Unary.Gate.{grpc_crawl_after_ban}
use obcrawler.Tests.System.{
  two, two_net, two-DecodesPeers, memory-ReadsPeers, alone, alone-IsKeyed, id_of,
}

-- A profile is a name. Its fee is of a type that the code does not know. A time of zero does not
-- convert.
abbrev pub fields : Models
fields = record {
  Timestamp = ℕ;
  timestamp_proto = λ t. if t == 0 then err (foreign 1) else ok t;
  Float64 = ℕ;
  Float32 = ℕ;
  to_float32 = λ x. x;
  Profile = String;
  Colors = Unit;
  Hashes = Unit;
  Moderator = Unit;
  Fee = Unit;
  Value = Unit;
  Currency = Unit;
  Contact = Unit;
  Social = String;
  Stats = Unit;
  peer_id = λ p. p;
  name = λ p. p;
  handle = λ p. "";
  location = λ p. "";
  about = λ p. "";
  short_description = λ p. "";
  escrow_public_key = λ p. "";
  nsfw = λ p. false;
  vendor = λ p. true;
  moderator = λ p. true;
  colors = λ p. tt;
  avatar_hashes = λ p. tt;
  header_hashes = λ p. tt;
  store_and_forward_servers = λ p. [];
  last_modified = λ p. 5;
  moderator_info = λ p. some tt;
  contact_info = λ p. some tt;
  stats = λ p. none;
  primary = λ c. "red";
  secondary = λ c. "";
  text = λ c. "";
  highlight = λ c. "";
  highlight_text = λ c. "";
  tiny = λ h. "";
  small = λ h. "";
  medium = λ h. "";
  large = λ h. "";
  original = λ h. "";
  filename = λ h. "";
  description = λ m. "";
  terms_and_conditions = λ m. "";
  accepted_currencies = λ m. "BTC" ∷ [];
  languages = λ m. [];
  fee = λ m. tt;
  percentage = λ f. 3;
  fee_type = λ f. other_fee;
  fixed_fee = λ f. some tt;
  amount = λ v. "10";
  currency = λ v. none;
  code = λ c. "BTC";
  divisibility = λ c. 8;
  email = λ c. "";
  phone_number = λ c. "";
  website = λ c. "";
  social = λ c. "a" ∷ "b" ∷ [];
  social_type = λ s. s;
  username = λ s. s;
  proof = λ s. "";
  follower_count = λ s. 0;
  following_count = λ s. 0;
  listing_count = λ s. 0;
  post_count = λ s. 0;
  rating_count = λ s. 0;
  average_rating = λ s. 0;
}

pb_profile-SameProfile_example : SameProfile fields "alice" "alice"
pb_profile-SameProfile_example = pb_profile-SameProfile fields "alice" "alice" 5 5 refl

-- The second of the objects has no expiration that converts.
abbrev objects : List (Object String String)
objects =
    record { payload = profile "alice"; expiration_date = 9 }
    ∷ record { payload = listing "l1"; expiration_date = 0 }
    ∷ record { payload = listing "l2"; expiration_date = 9 }
    ∷ []

abbrev sends : ℕ → UserData fields String → Option GoError
sends n ud = none

-- The third Send fails.
abbrev sends_two : ℕ → UserData fields String → Option GoError
sends_two n ud = if n == 1 then some (foreign 2) else none

subscribe_loop-messages_example :
    subscribe_loop fields String sends 0 (map obj objects ++ gone ∷ [])
    ≡ (messages fields String objects, ended none)
subscribe_loop-messages_example =
    subscribe_loop-messages fields String sends 0 objects [] (λ k ud. refl)

grpc_crawl_after_ban_example :
    let t =
      (grpc memory two "secret"
        (some ("secret" ∷ []))
        (0 ∷ [])
        true
        (ban_request "alice")
        alone).system in
    ((grpc memory two "secret" none (0 ∷ []) true (crawl_request "alice") t).error ≢ none)
    × ((grpc memory two "secret" none (0 ∷ []) true (crawl_request "alice") t).system.queue
        ≡ t.queue)
unfolding string_dec grpc first_row rpc_ban_node ban_node
grpc_crawl_after_ban_example =
    grpc_crawl_after_ban memory memory-IsLawful two two_net id_of "secret" (some ("secret" ∷ []))
      none (0 ∷ []) true "alice" "alice" true alone
      (grpc memory two "secret" (some ("secret" ∷ [])) (0 ∷ []) true (ban_request "alice")
        alone).system
      (λ p. refl) two-DecodesPeers memory-ReadsPeers alone-IsKeyed refl refl refl here
