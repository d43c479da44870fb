-- ===== src/FileTypes/Tests.antt =====
-- Instances of the theorem on accepted names, for names in ASCII.
use secondbrain_ai.Prelude.{◌≡◌, refl, true, all, All, All-mono}
use secondbrain_ai.Prelude.Text.{text_eq, text_eq→eq, lower_ascii}
use secondbrain_ai.FileTypes.{types}
use secondbrain_ai.FileTypes.Detection.{all→All}

lower_extensions : all (λ t. text_eq (lower_ascii t.extension) t.extension) types ≡ true
unfolding text_eq
lower_extensions = refl

lower_fixed : All (λ t. lower_ascii t.extension ≡ t.extension) types
lower_fixed =
    All-mono _ _ types (λ t h. text_eq→eq (lower_ascii t.extension) t.extension h)
      (all→All (λ t. text_eq (lower_ascii t.extension) t.extension) types lower_extensions)
