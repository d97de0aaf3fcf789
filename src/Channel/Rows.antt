-- ===== src/Channel/Rows.antt =====
-- The tables of server/internal/store/channel_interaction.go and its statements. Times are not
-- modelled: a grant keeps whether it was revoked. A statement that breaks a key fails.
pub mod Candidates
use Prim.Native.String.{◌++◌, len}
use leads_engine.Base.{
  Bool, true, false, ◌&&◌, ◌||◌, not, Option, none, some, String, ◌==◌, List, [], ◌∷◌,
  if◌then◌else◌, ℤ, leb, nat_eq, is_letter, is_digit, all_chars, ℕ,
}
use leads_engine.TenantMap.Parse.{split}
use leads_engine.Channel.{Grant, Stored}

pub record GrantRow : Type 0 where
  pub tenant_id : String
  pub provider : String
  pub account_id : String
  pub app_id : String
  pub subject_ns : String
  pub message_ns : String
  pub post_ns : String
  pub capabilities : String
  pub is_revoked : Bool

pub record InteractionRow : Type 0 where
  pub id : String
  pub tenant_id : String
  pub provider : String
  pub account_id : String
  pub app_id : String
  pub event_id : String
  pub kind : String
  pub subject_id : String
  pub nickname : String
  pub phone : String
  pub body : String
  pub text_sha256 : String
  pub explicit_intent : Bool
  pub purpose : String
  pub is_retracted : Bool
  pub score : ℤ
  pub channel_contact : Bool
  pub phone_marketing : Bool
  pub sms_marketing : Bool
  pub auto_reach : Bool
  pub receipt_human : Bool
  pub candidate_id : String

pub data CandidateStatus : Type 0 where
  candidate_open candidate_confirmed candidate_withdrawn : CandidateStatus

pub record CandidateRow : Type 0 where
  pub id : String
  pub tenant_id : String
  pub interaction_id : String
  pub provider : String
  pub account_id : String
  pub event_id : String
  pub subject_id : String
  pub purpose : String
  pub status : CandidateStatus

pub record FloorRow : Type 0 where
  pub tenant_id : String
  pub provider : String
  pub account_id : String
  pub subject_id : String
  pub holder : String

pub record State : Type 0 where
  pub grants : List GrantRow
  pub interactions : List InteractionRow
  pub candidates : List CandidateRow
  pub floors : List FloorRow

abbrev pub empty : State
empty = record { grants = []; interactions = []; candidates = []; floors = [] }

-- `strings.Join(words, ",")`
unfoldable pub join : List String → String
join [] = ""
join (w ∷ []) = w
join (w ∷ (v ∷ words)) = w ++ ("," ++ join (v ∷ words))

abbrev is_token_char : ℕ → Bool
is_token_char c = is_letter c || is_digit c || nat_eq c b'_' || nat_eq c b'-' || nat_eq c b'.'

-- `channelToken`: `len` counts bytes, and every other character than ASCII is refused.
unfoldable pub channel_token : String → ℕ → Bool
unfolding all_chars
channel_token s max = not (s == "") && leb (len s) max && all_chars is_token_char s

abbrev pub grant_is : String → String → String → GrantRow → Bool
grant_is tenant provider account g =
    g.tenant_id == tenant && g.provider == provider && g.account_id == account

-- `loadChannelGrant`
unfoldable pub load_grant : String → String → String → List GrantRow → Option Grant
unfolding split
load_grant tenant provider account [] = none
load_grant tenant provider account (g ∷ rows) =
    let later = load_grant tenant provider account rows in
    if grant_is tenant provider account g
    then some (record {
      tenant_id = tenant;
      provider = provider;
      account_id = account;
      app_id = g.app_id;
      subject_ns = g.subject_ns;
      message_ns = g.message_ns;
      post_ns = g.post_ns;
      capabilities = if g.capabilities == "" then [] else split b',' g.capabilities;
      is_revoked = g.is_revoked;
    })
    else later

-- `INSERT ... ON CONFLICT DO UPDATE`: a grant that is there keeps whether it was revoked.
unfoldable pub upsert_grant : GrantRow → List GrantRow → List GrantRow
upsert_grant new [] = new ∷ []
upsert_grant new (g ∷ rows) =
    let rest = upsert_grant new rows in
    if grant_is new.tenant_id new.provider new.account_id g
    then record g {
      app_id = new.app_id;
      subject_ns = new.subject_ns;
      message_ns = new.message_ns;
      post_ns = new.post_ns;
      capabilities = new.capabilities;
    }
      ∷ rows
    else g ∷ rest

-- The grants with the key revoked, and whether there is one.
unfoldable pub mark_revoked : String → String → String → List GrantRow → List GrantRow × Bool
mark_revoked tenant provider account [] = ([], false)
mark_revoked tenant provider account (g ∷ rows) =
    let (rest, found) = mark_revoked tenant provider account rows in
    if grant_is tenant provider account g
    then (record g { is_revoked = true } ∷ rest, true)
    else (g ∷ rest, found)

abbrev pub event_is : String → String → String → String → InteractionRow → Bool
event_is tenant provider account event x =
    x.tenant_id == tenant
    && x.provider == provider
    && x.account_id == account
    && x.event_id == event

-- `loadChannelPrior`
unfoldable pub load_prior : String → String → String → String → List InteractionRow → Option Stored
load_prior tenant provider account event [] = none
load_prior tenant provider account event (x ∷ rows) =
    let later = load_prior tenant provider account event rows in
    if event_is tenant provider account event x
    then some (record {
      interaction_id = x.id;
      candidate_id = x.candidate_id;
      text_sha256 = x.text_sha256;
      is_retracted = x.is_retracted;
    })
    else later

unfoldable pub interaction_taken : InteractionRow → List InteractionRow → Bool
interaction_taken new [] = false
interaction_taken new (x ∷ rows) =
    x.id == new.id
    || event_is new.tenant_id new.provider new.account_id new.event_id x
    || interaction_taken new rows

unfoldable pub insert_interaction :
    InteractionRow → List InteractionRow → Option (List InteractionRow)
unfolding interaction_taken
insert_interaction new rows = if interaction_taken new rows then none else some (new ∷ rows)

-- `UPDATE channel_interactions ... WHERE id=? AND tenant_id=?`
unfoldable pub change_interaction :
    String → String → (InteractionRow → InteractionRow) → List InteractionRow → List InteractionRow
change_interaction id tenant change [] = []
change_interaction id tenant change (x ∷ rows) =
    let rest = change_interaction id tenant change rows in
    if x.id == id && x.tenant_id == tenant then change x ∷ rest else x ∷ rest
