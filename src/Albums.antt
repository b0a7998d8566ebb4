-- ===== src/Albums.antt =====
-- internal/catalog/extended_store.go: albums, what is in them, and the positions of assets in the
-- in-memory store. The lock of the store makes each method one step.
pub mod Slugs
pub mod Tree
pub mod Pruning
pub mod Deletion
pub mod Ending
pub mod Items
pub mod Steps
pub mod Positions
mod Examples
use cartolensia.Prelude.{
  ℕ, zero, suc, ◌+◌, String, Bool, true, false, not, ◌&&◌, Option, none, some, List, [], ◌∷◌, map,
  Text, text_eq, string_eq, ◌==◌, length, ltb, is_none, if◌then◌else◌,
}
use cartolensia.Prelude.Dict.{Dict, lookup, insert, remove}
use cartolensia.Catalog.{Asset, Metadata, Found, ok, not_found}
use cartolensia.Albums.Slugs.{slugify}

-- Sort orders are natural numbers.
pub record Album : Type 0 where
  pub id : String
  pub parent_id : String
  pub slug : Text
  pub title : Text
  pub description : String
  pub sort_order : ℕ
  pub item_count : ℕ
  pub created_at : ℕ
  pub updated_at : ℕ

pub record AlbumItem : Type 0 where
  pub album_id : String
  pub asset : Asset
  pub note : String
  pub sort_order : ℕ
  pub added_at : ℕ

-- The position of an asset; coordinates are texts, which these methods only carry, and a zero CreatedAt is
-- `none`.
pub record AssetGeo : Type 0 where
  pub asset_id : String
  pub lat : Text
  pub lon : Text
  pub source : String
  pub confidence : Option ℕ
  pub taken_at : Option ℕ
  pub track_asset_id : String
  pub metadata : Metadata
  pub created_at : Option ℕ
  pub updated_at : ℕ

-- The fields of MemoryStore that these methods use.
pub record Gallery : Type 0 where
  pub assets : Dict String Asset
  pub albums : Dict String Album
  pub album_items : Dict String (Dict String AlbumItem)
  pub asset_geo : Dict String AssetGeo

abbrev or_else : Text → Text → Text
or_else fallback s = if s == [] then fallback else s

-- the album that CreateAlbum stores
unfoldable pub prepared_album : ℕ → String → Album → Album
unfolding slugify
prepared_album now fresh album =
    let slug = or_else (slugify album.title) album.slug in
    record album {
      id = if album.id == "" then fresh else album.id;
      slug = slug;
      title = or_else slug album.title;
      created_at = now;
      updated_at = now;
    }

-- CreateAlbum; the fresh identifier is an argument
unfoldable pub create_album : ℕ → String → Album → Gallery → Album × Gallery
unfolding prepared_album
create_album now fresh album s =
    let stored = prepared_album now fresh album in
    (stored, record s { albums = insert stored.id stored s.albums })

abbrev pub edited : ℕ → Album → Album → Album
edited now album current = record current {
  slug = or_else current.slug album.slug;
  title = or_else current.title album.title;
  parent_id = album.parent_id;
  description = album.description;
  sort_order = album.sort_order;
  updated_at = now;
}

abbrev pub update_at : ℕ → Album → Option Album → Gallery → Found Album × Gallery
update_at now album none s = (not_found, s)
update_at now album (some current) s =
    let stored = edited now album current in
    (ok stored, record s { albums = insert album.id stored s.albums })

-- UpdateAlbum
unfoldable pub update_album : ℕ → Album → Gallery → Found Album × Gallery
update_album now album s = update_at now album (lookup album.id s.albums) s

abbrev pub items_of : Option (Dict String AlbumItem) → Dict String AlbumItem
items_of none = []
items_of (some items) = items

-- GetAlbum
abbrev counted : Option (Dict String AlbumItem) → Option Album → Found Album
counted items none = not_found
counted items (some album) = ok (record album { item_count = length (items_of items) })

unfoldable pub get_album : String → Gallery → Found Album
get_album album_id s = counted (lookup album_id s.album_items) (lookup album_id s.albums)
