-- ===== src/Policy/Exceptions.antt =====
-- crates/topgent-policy/src/exception.rs: a finding that an operator accepted.
use topgent.Base.{
  ℕ, ◌-◌, ◌*◌, ◌/◌, Bool, true, false, not, ◌&&◌, leb, ltb, if◌then◌else◌, List, [], ◌∷◌, Option,
  none, some, Result, ite, ◌==◌,
}
use topgent.Text.{Bytes, ascii, is_blank, Bytes-discrete}
use topgent.Outcome.{◌>>◌, refuse_if}

pub record Exception : Type 0 where
  pub name : Bytes
  pub factor : Bytes
  pub family : Option Bytes
  pub target : Option Bytes
  pub reason : Bytes
  pub created_by : Bytes
  -- u64
  pub created_at : ℕ
  -- u64
  pub expires_at : ℕ

pub data ExceptionError : Type 0 where
  -- field
  blank : Bytes → ExceptionError
  -- created_at, expires_at
  not_dated : ℕ → ℕ → ExceptionError
  unknown_factor : Bytes → ExceptionError
  -- days
  too_long : ℕ → ExceptionError

abbrev pub max_window_ms : ℕ
max_window_ms = 365 * 86400000

-- catalogue.rs
abbrev pub known_codes : List Bytes
known_codes =
    ascii "SANDBOX_ESCAPE"
    ∷ ascii "RECON_FANOUT"
    ∷ ascii "ARBITRARY_EXECUTION"
    ∷ ascii "BROAD_WRITE"
    ∷ ascii "UNRESTRICTED_NETWORK"
    ∷ ascii "SECRET_REACHABLE"
    ∷ ascii "EXFILTRATION_PATH"
    ∷ ascii "AGENT_CHAIN"
    ∷ ascii "DECLARATION_DRIFT"
    ∷ ascii "WATCHLIST"
    ∷ ascii "EXPOSED_LISTENER"
    ∷ ascii "OFFENSIVE_TOOL"
    ∷ ascii "PROCESS_EXPLOSION"
    ∷ ascii "SUSPICIOUS_ENDPOINT"
    ∷ ascii "PRIVATE_PEER"
    ∷ ascii "METADATA_SERVICE"
    ∷ ascii "CREDENTIAL_ACCESS"
    ∷ ascii "PERSISTENCE_WRITE"
    ∷ ascii "SELF_TAMPERING"
    ∷ ascii "DISALLOWED_ASSET"
    ∷ []

unfoldable pub is_known : List Bytes → Bytes → Bool
unfolding Bytes-discrete
is_known [] factor = false
is_known (code ∷ codes) factor = ite (Bytes-discrete code factor) true (is_known codes factor)

unfoldable pub validate : Exception → Result ExceptionError (Unit {0})
unfolding is_blank
validate e =
    refuse_if (is_blank e.name) (blank (ascii "name"))
    >> (refuse_if (is_blank e.factor) (blank (ascii "factor"))
        >> (refuse_if (is_blank e.reason) (blank (ascii "reason"))
            >> (refuse_if (is_blank e.created_by) (blank (ascii "created_by"))
                >> (refuse_if (leb e.expires_at e.created_at) (not_dated e.created_at e.expires_at)
                    >> (refuse_if (ltb max_window_ms (e.expires_at - e.created_at))
                          (too_long ((e.expires_at - e.created_at) / 86400000))
                        >> refuse_if (not (is_known known_codes e.factor))
                            (unknown_factor e.factor))))))

unfoldable pub active_at : ℕ → Exception → Bool
active_at as_of e = leb e.created_at as_of && ltb as_of e.expires_at

-- `str::starts_with`, and `str::contains`.
unfoldable pub starts_with : Bytes → Bytes → Bool
starts_with text [] = true
starts_with [] (w ∷ wanted) = false
starts_with (c ∷ cs) (w ∷ wanted) = c == w && starts_with cs wanted

unfoldable pub contains_text : Bytes → Bytes → Bool
unfolding starts_with
contains_text [] wanted = starts_with [] wanted
contains_text (c ∷ cs) wanted =
    let rest = contains_text cs wanted in if starts_with (c ∷ cs) wanted then true else rest

unfoldable pub same_bytes : Bytes → Bytes → Bool
unfolding Bytes-discrete
same_bytes a b = ite (Bytes-discrete a b) true false

unfoldable pub family_fits : Option Bytes → Option Bytes → Bool
family_fits none family = true
family_fits (some wanted) none = false
family_fits (some wanted) (some family) = same_bytes wanted family

unfoldable pub target_fits : Option Bytes → Bytes → Bool
target_fits none subject = true
target_fits (some wanted) subject = contains_text subject wanted

unfoldable pub covers : Bytes → Option Bytes → Bytes → Exception → Bool
covers factor family subject e =
    same_bytes e.factor factor && family_fits e.family family && target_fits e.target subject

pub record Suppression : Type 0 where
  pub exception : Bytes
  pub factor : Bytes
  pub title : Bytes
  -- u32
  pub points : ℕ
  pub expires_at : ℕ
