-- ===== src/Adapters/Tests.antt =====
-- Items, results and a registry, and the theorems at them.
use pricewatch.Base.{◌≡◌, refl, none, [], codes}
use pricewatch.Base.Int.{pos, negsuc}
use pricewatch.Base.Unicode.{ascii}
use pricewatch.Errors.{err, negative_price, no_identity}
use pricewatch.Accounts.Table.{browser}
use pricewatch.Adapters.Results.{SavedItem, SavedItemsResult, make_item, make_result, strip}

abbrev item : SavedItem
item = record {
  external_id = codes "1";
  title = codes "Coat";
  price = pos 2999;
  currency = codes "GBP";
  variant_id = [];
  variant_label = none;
  rrp = none;
  in_stock = none;
  url = none;
  image_url = none;
}

refund : make_item (record item { price = negsuc 0 }) ≡ err (negative_price (codes "1"))
unfolding make_item
refund = refl

abbrev empty_list : SavedItemsResult
empty_list = record {
  identity = codes " cust-7 ";
  items = [];
  exec_mode = browser;
  raw = [];
  extra_lookups = pos 0;
}

blank : make_result ascii (record empty_list { identity = codes "  " }) ≡ err no_identity
unfolding make_result strip
blank = refl
