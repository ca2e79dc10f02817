-- ===== src/Codec/Header/Validate.antt =====
-- What `validate` accepts.
use aura_epics.Prelude.{◌≤◌, ◌≡◌, ◌↔◌, ◌⊎◌, true, ok, arith}
use aura_epics.Codec.Header.{PvaHeader, validate, is_control, max_payload_size}

-- A header is valid exactly if its version is at least 1 and it is a control message or its
-- payload, as an unsigned number, is within 16 MiB: a negative size never is.
pub validate_iff :
    (h : PvaHeader)
    → (validate h ≡ ok tt)
      ↔ ((1 ≤ h.version) × ((is_control h ≡ true) ⊎ (h.payload_size ≤ max_payload_size)))
unfolding validate
validate_iff h = ground arith
