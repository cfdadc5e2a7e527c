-- ===== src/Execution/Terminal/Attached.antt =====
-- What `attach` and `detach` of src/execution/persistent.rs do to the attachments that are kept.
use securecrt_mcp.Prelude.{◌≡◌, refl, false, arith, none, err}
use securecrt_mcp.Text.{Text, eq_text}
use securecrt_mcp.Text.Equality.{eq_text_refl}
use securecrt_mcp.Assoc.{Assoc, lookup, remove}
use securecrt_mcp.Assoc.Laws.{lookup-remove}
use securecrt_mcp.Execution.Terminal.{
  Attachment, stale_attachment, attachment_cache_key, attachment_value, detach,
}

absent :
    (id : Text) (m : Assoc Attachment)
    → lookup id m ≡ none
    → lookup (attachment_cache_key id) m ≡ none
    → attachment_value id m ≡ err stale_attachment
unfolding attachment_value
absent id m a b = rw (a, attachment_value) (rw b refl)

-- A detached name is stale, under itself and under its local name, and no other name is touched.
pub detach_forgets :
    (id : Text) (m : Assoc Attachment)
    → (attachment_value id (detach id m) ≡ err stale_attachment)
      × ((j : Text)
          → eq_text id j ≡ false
          → eq_text (attachment_cache_key id) j ≡ false
          → lookup j (detach id m) ≡ lookup j m)
unfolding detach
detach_forgets id m =
    let key = attachment_cache_key id in
    let inner = remove id m in
    let gone : lookup id (remove key inner) ≡ none =
      ground (arith, lookup-remove key id inner, lookup-remove id id m, eq_text_refl id) in
    let local : lookup key (remove key inner) ≡ none =
      ground (arith, lookup-remove key key inner, eq_text_refl key) in
    (
      absent id (remove key inner) gone local,
      λ j a b. ground (arith, lookup-remove key j inner, lookup-remove id j m),
    )
