-- ===== src/Risk.antt =====
-- crates/topgent-core/src/risk: the factors (factor.rs) and the grades (grade.rs).
pub mod Assess
pub mod Ceilings
pub mod Covered
pub mod Accepted
mod Tests
use topgent.Base.{ℕ, Bool, leb, if◌then◌else◌, List}
use topgent.Text.{Bytes, ascii}
use topgent.Facts.{Confidence}

pub data FactorCode : Type 0 where
  arbitrary_execution broad_write secret_reachable unrestricted_network declaration_drift
        agent_chain exfiltration_path recon_fanout watchlist sandbox_escape exposed_listener
        offensive_tool process_explosion suspicious_endpoint private_peer metadata_service
        credential_access persistence_write self_tampering disallowed_asset :
      FactorCode

-- `FactorCode::as_str`
unfoldable pub code_name : FactorCode → Bytes
code_name arbitrary_execution = ascii "ARBITRARY_EXECUTION"
code_name broad_write = ascii "BROAD_WRITE"
code_name unrestricted_network = ascii "UNRESTRICTED_NETWORK"
code_name secret_reachable = ascii "SECRET_REACHABLE"
code_name declaration_drift = ascii "DECLARATION_DRIFT"
code_name agent_chain = ascii "AGENT_CHAIN"
code_name exfiltration_path = ascii "EXFILTRATION_PATH"
code_name recon_fanout = ascii "RECON_FANOUT"
code_name watchlist = ascii "WATCHLIST"
code_name sandbox_escape = ascii "SANDBOX_ESCAPE"
code_name exposed_listener = ascii "EXPOSED_LISTENER"
code_name offensive_tool = ascii "OFFENSIVE_TOOL"
code_name process_explosion = ascii "PROCESS_EXPLOSION"
code_name suspicious_endpoint = ascii "SUSPICIOUS_ENDPOINT"
code_name private_peer = ascii "PRIVATE_PEER"
code_name metadata_service = ascii "METADATA_SERVICE"
code_name credential_access = ascii "CREDENTIAL_ACCESS"
code_name persistence_write = ascii "PERSISTENCE_WRITE"
code_name self_tampering = ascii "SELF_TAMPERING"
code_name disallowed_asset = ascii "DISALLOWED_ASSET"

-- The place of a code in the declaration, by which codes are ordered.
unfoldable pub rank : FactorCode → ℕ
rank arbitrary_execution = 0
rank broad_write = 1
rank secret_reachable = 2
rank unrestricted_network = 3
rank declaration_drift = 4
rank agent_chain = 5
rank exfiltration_path = 6
rank recon_fanout = 7
rank watchlist = 8
rank sandbox_escape = 9
rank exposed_listener = 10
rank offensive_tool = 11
rank process_explosion = 12
rank suspicious_endpoint = 13
rank private_peer = 14
rank metadata_service = 15
rank credential_access = 16
rank persistence_write = 17
rank self_tampering = 18
rank disallowed_asset = 19

pub record Factor : Type 0 where
  pub code : FactorCode
  -- u32
  pub points : ℕ
  pub title : Bytes
  pub source : Bytes
  pub confidence : Confidence

pub data Grade : Type 0 where
  not_evaluated low medium high critical : Grade

unfoldable pub from_score : ℕ → Grade
from_score score =
    if leb 80 score
    then critical
    else if leb 60 score
    then high
    else if leb 35 score
    then medium
    else low

abbrev pub max_score : ℕ
max_score = 100

pub record Risk : Type 0 where
  pub score : ℕ
  pub grade : Grade
  pub factors : List Factor
  pub identity_multiplier : ℕ
