-- ===== src/Tests/Staging.antt =====
-- Staged entries on a concrete overlay.
use forgefs.Base.{◌≡◌, refl, false, none, some, [], ◌∷◌, bytes, starts_with}
use forgefs.Types.{ok, err, invalid}
use forgefs.Catalog.{Catalog, empty}
use forgefs.Catalog.Overlay.{overlay_upsert, overlay_rename}
use forgefs.Catalog.Overlay.PrefixFree.{IsPrefixFree, overlay_upsert-IsPrefixFree}
use forgefs.Catalog.Overlay.Rename.{overlay_rename-IsPrefixFree}

abbrev staged : Catalog
staged = record empty {
  overlay =
      record {
        ns_id = bytes "s";
        mount = bytes "/";
        path = bytes "d/f";
        blob_oid = some (1 ∷ []);
        exec = false;
      }
      ∷ [];
}

staged_ok :
    overlay_upsert empty (bytes "s") (bytes "/") (bytes "d/f") (some (1 ∷ [])) false ≡ ok staged
unfolding overlay_upsert starts_with
staged_ok = refl

clashing :
    overlay_upsert staged (bytes "s") (bytes "/") (bytes "d") (some (1 ∷ [])) false
    ≡ err (invalid "overlay path conflict: {path} and {existing} cannot coexist")
unfolding overlay_upsert starts_with
clashing = refl

overlay_upsert-IsPrefixFree_example : IsPrefixFree staged.overlay
overlay_upsert-IsPrefixFree_example =
    overlay_upsert-IsPrefixFree empty staged (bytes "s") (bytes "/") (bytes "d/f") (some (1 ∷ []))
      false tt staged_ok

abbrev renamed : Catalog
renamed = record empty {
  overlay =
      record {
        ns_id = bytes "s";
        mount = bytes "/";
        path = bytes "d";
        blob_oid = none;
        exec = false;
      }
      ∷ record {
        ns_id = bytes "s";
        mount = bytes "/";
        path = bytes "e/f";
        blob_oid = some (1 ∷ []);
        exec = false;
      }
      ∷ [];
}

renamed_ok :
    overlay_rename staged
      (bytes "s")
      (bytes "/")
      (bytes "d")
      (bytes "e")
      ((bytes "e/f", 1 ∷ [], false) ∷ [])
    ≡ ok renamed
unfolding overlay_rename starts_with
renamed_ok = refl

overlay_rename-IsPrefixFree_example : IsPrefixFree renamed.overlay
unfolding starts_with
overlay_rename-IsPrefixFree_example =
    overlay_rename-IsPrefixFree staged renamed (bytes "s") (bytes "/") (bytes "d") (bytes "e")
      ((bytes "e/f", 1 ∷ [], false) ∷ []) overlay_upsert-IsPrefixFree_example refl refl
      (refl, tt, tt) renamed_ok
