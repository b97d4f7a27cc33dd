-- ===== src/Auth/Tokens/Tests.antt =====
-- The laws of the account links at concrete rows.
use proj_track_official.Prelude.{◌≡◌, refl, false, none, some, [], ◌∷◌, arith}
use proj_track_official.Prelude.Text.{codes, text_eq, trim}
use proj_track_official.Prelude.Outcome.{done, succeeded, final}
use proj_track_official.Auth.User.{User, student, pending_activation}
use proj_track_official.Auth.Tokens.{
  Crypto, Token, account_activation, Store, Fresh, consume, consume_record, issue_activation,
}
use proj_track_official.Auth.Tokens.Once.{HasUniqueIds, spent, consume_once}
use proj_track_official.Auth.Tokens.Issuing.{IsFresh, issue_activation-consume}

abbrev plain : Crypto
plain = record { hash = λ t. t; encrypt = λ n t. t; decrypt = λ t. some t }

abbrev ann : User
ann = record {
  id = codes "u1";
  email = codes "ann@x.ph";
  role = student;
  status = pending_activation;
}

abbrev link : Token
link = record {
  id = codes "t1";
  user_id = codes "u1";
  token_type = account_activation;
  public_ref = codes "acr_1";
  token_hash = codes "act_1";
  encrypted_token = codes "act_1";
  created_at = 0;
  expires_at = 3600000;
  used_at = none;
  revoked_at = none;
}

abbrev store : Store
store = record { tokens = link ∷ []; users = λ id. ann }

abbrev empty : Store
empty = record { tokens = []; users = λ id. ann }

abbrev fresh_link : Fresh
fresh_link = record { raw = codes "act_2"; ref = codes "acr_2"; row_id = codes "t2"; nonce = 7 }

abbrev other_link : Fresh
other_link = record { raw = codes "act_3"; ref = codes "acr_3"; row_id = codes "t3"; nonce = 8 }

store-HasUniqueIds : HasUniqueIds store
store-HasUniqueIds x = ground arith

used :
    consume ⦃crypto = plain⦄ account_activation
      (some (codes "acr_1"))
      (some (codes "act_1"))
      5
      store
    ≡ done ann (spent ⦃crypto = plain⦄ link 5 store)
unfolding consume text_eq trim
used = refl

consume_once_example :
    succeeded (
      consume ⦃crypto = plain⦄ account_activation
        (some (codes "acr_1"))
        (some (codes "act_1"))
        6
        (spent ⦃crypto = plain⦄ link 5 store))
    ≡ false
consume_once_example =
    consume_once ⦃crypto = plain⦄ account_activation account_activation (some (codes "acr_1"))
      (some (codes "act_1")) (some (codes "act_1")) 5 6 store store-HasUniqueIds used

written : consume_record link 5 store ≡ done ann (spent ⦃crypto = plain⦄ link 5 store)
unfolding consume_record text_eq
written = refl

fresh_link-IsFresh : IsFresh ⦃crypto = plain⦄ fresh_link store
unfolding text_eq trim
fresh_link-IsFresh = record {
  new_id = refl;
  new_ref = refl;
  ref_trimmed = refl;
  raw_trimmed = refl;
  ref_solid = refl;
  raw_solid = refl;
}

issue_activation-consume_example :
    (s : Store) × (consume ⦃crypto = plain⦄ account_activation
        (some (codes "acr_2"))
        (some (codes "act_2"))
        20
        (final (issue_activation ⦃crypto = plain⦄ fresh_link (codes "u1") 9 10 store))
      ≡ done ann s)
issue_activation-consume_example =
    issue_activation-consume ⦃crypto = plain⦄ fresh_link (codes "u1") 9 10 20 store
      store-HasUniqueIds fresh_link-IsFresh refl (omega arith)
