-- ===== src/Value.antt =====
-- Go's dynamic values (`any`) as the adapter handles them, its `map[string]any`, and the parsed
-- JSON documents from which the provider's values come.
-- A map is its entries; a nil map and an empty one read alike and are one value here.
mod Numbers
mod Data
mod Document
pub use Numbers.{Float, nan, infinite, finite}
unfoldable pub use Numbers.{is_whole, above, below, truncated, fits_int}
pub use Data.{
  Value, null, bool, int, int64, float64, number, string, texts, array, object, objects, Values,
  nil, cons, Fields, end, field, Objects, none_left, entry,
}
unfoldable pub use Data.{
  get, put, has, size, as_string, as_object, as_array, as_bool, string_at, text_at, or_end,
  copy_keys, union, sprints_empty, object_at, value_at, entries, members_of, rows_of, from_rows,
  without, count_values,
}
pub use Data.{get-put, get-put_self, get-without}
pub use Document.{Json, Jsons, Members, empty, item, closed, member}
unfoldable pub use Document.{to_value, to_fields}
