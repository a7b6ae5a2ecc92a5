-- ===== src/Group/Tests.antt =====
-- The group functions at the base point of Ed25519.
use bitmonero.Base.{refl, arith, List, [], ◌∷◌}
use bitmonero.Base.Int.{ℤ, pos, negsuc, ◌+ℤ◌, ◌-ℤ◌, ◌*ℤ◌}
use bitmonero.Field.{fe_1}
use bitmonero.Field.Linear.{limbs_value}
use bitmonero.Group.{GeP3, GeP1P1, GePrecomp, ge_add, ge_p2_dbl, ge_p3_to_p2, ge_p3_to_cached}
use bitmonero.Group.Curve.{OnCurve, IsSum, IsP3, IsP1P1, IsCached, IsPrecomp, one-IsUnit}
use bitmonero.Group.Convert.{ge_p3_to_cached-IsCached, ge_p3_to_p2-IsP2}
use bitmonero.Group.Add.{ge_add-IsP1P1}
use bitmonero.Group.Double.{ge_p2_dbl-IsP1P1}

abbrev pub base_x : ℤ
base_x = pos 15112221349535400772501151409588531511454012693041857206046113283949847762202

abbrev pub base_y : ℤ
base_y = pos 46316835694926478169428394003475163141307993866256225615783033603165251855960

abbrev double_x : ℤ
double_x = pos 24727413235106541002554574571675588834622768167397638456726423682521233608206

abbrev double_y : ℤ
double_y = pos 15549675580280190176352668710449542251549572066445060580507079593062643049417

abbrev limbs_x : List ℤ
limbs_x =
    negsuc 14297829
    ∷ negsuc 7645147
    ∷ pos 16144683
    ∷ negsuc 16471762
    ∷ pos 27570974
    ∷ negsuc 2696099
    ∷ negsuc 26142464
    ∷ pos 8378389
    ∷ pos 20764389
    ∷ pos 8758491
    ∷ []

abbrev limbs_y : List ℤ
limbs_y =
    negsuc 26843540
    ∷ negsuc 6710885
    ∷ pos 13421773
    ∷ negsuc 13421772
    ∷ pos 26843546
    ∷ pos 6710886
    ∷ negsuc 13421772
    ∷ pos 13421773
    ∷ negsuc 26843545
    ∷ negsuc 6710885
    ∷ []

abbrev pub base_point : GeP3
base_point = record {
  x = limbs_x;
  y = limbs_y;
  z = fe_1;
  t =
      pos 28827062
      ∷ negsuc 6116118
      ∷ negsuc 27349571
      ∷ pos 244363
      ∷ pos 8635006
      ∷ pos 11264893
      ∷ pos 19351346
      ∷ pos 13413597
      ∷ pos 16611511
      ∷ negsuc 6414979
      ∷ [];
}

unfoldable pub base_point-IsP3 : IsP3 base_point base_x base_y
unfolding limbs_value ◌+ℤ◌ ◌*ℤ◌
base_point-IsP3 = record {
  s = pos 1;
  s_unit = one-IsUnit;
  x_stands = record { bounded = omega arith; stands = record { quotient = pos 0; split = refl } };
  y_stands = record {
    bounded = omega arith;
    stands = record { quotient = negsuc 0; split = refl };
  };
  z_stands = record { bounded = omega arith; stands = record { quotient = pos 0; split = refl } };
  t_stands = record {
    bounded = omega arith;
    stands = record {
      quotient =
          negsuc 12089777079628320618000921127670825209163210154433485764836890627159878209761;
      split = refl;
    };
  };
}

base_twice : IsSum base_x base_y base_x base_y double_x double_y
unfolding ◌+ℤ◌ ◌-ℤ◌ ◌*ℤ◌
base_twice = record {
  x_unit = record {
    inverse = pos 209325846291170943509691191589112255490563248687624486049616149279891676193;
    is_inverse = record {
      quotient =
          pos
            65710077038592284885128194704612125297124147506666187521032297312702244486810862637264226869719864926976365642032707628362997924755870609250385023312349465164770657171204930236815000536633787413174978186681289202120455056439917101094629388596304822062021483789433741940069860792400785610591715746034045028518326741543464152826940266598280832899603909727790739683316911141923477408;
      split = refl;
    };
  };
  y_unit = record {
    inverse = pos 23433485286344922975343343183309822149119477277686524097973672123823657291327;
    is_inverse = record {
      quotient =
          negsuc
            7356072605131470847269576454848700659845894423552434582094082307258429216772507804898051361499436904896893105735236099106562934197828080965919715061835095008756664914518482702112849810602985487301238898031645792197226761888603547144996590338438839804699479843874638590163953960283088574121044551515704341694731827089769959203500473222058037743750737658967481093919635615220388806025;
      split = refl;
    };
  };
  x_law = record {
    quotient =
        pos
          7762253240260711468927589100662562454227452400193906999461217030612899270502819491995599324436464859572969206534970094455512698302768748238525980091934063958254925982381677491074695934220085704371293403297092580455572417984843232277017369035246620434128400806907934054449301180147018412160357058819660748438781349421986878899730889555225556142228830399407904633784721038329445360934;
    split = refl;
  };
  y_law = record {
    quotient =
        negsuc
          4881243278883259723768149441330305105664771202263920283706623177037697722299946499613486455216394531899545102778200264304784899937103126924298256047882321055269144926624860138215892566210571335353713467463174575758150669481342051341228871606838290600728530209233449043550971249337081206808221312654961238057776388326715508192677731373900946538276819826272073146823159880493855021862;
    split = refl;
  };
}

base_opposite : IsSum base_x base_y (pos 0 -ℤ base_x) base_y (pos 0) (pos 1)
unfolding ◌+ℤ◌ ◌-ℤ◌ ◌*ℤ◌
base_opposite = record {
  x_unit = record {
    inverse = pos 23433485286344922975343343183309822149119477277686524097973672123823657291327;
    is_inverse = record {
      quotient =
          negsuc
            7356072605131470847269576454848700659845894423552434582094082307258429216772507804898051361499436904896893105735236099106562934197828080965919715061835095008756664914518482702112849810602985487301238898031645792197226761888603547144996590338438839804699479843874638590163953960283088574121044551515704341694731827089769959203500473222058037743750737658967481093919635615220388806025;
      split = refl;
    };
  };
  y_unit = record {
    inverse = pos 209325846291170943509691191589112255490563248687624486049616149279891676193;
    is_inverse = record {
      quotient =
          pos
            65710077038592284885128194704612125297124147506666187521032297312702244486810862637264226869719864926976365642032707628362997924755870609250385023312349465164770657171204930236815000536633787413174978186681289202120455056439917101094629388596304822062021483789433741940069860792400785610591715746034045028518326741543464152826940266598280832899603909727790739683316911141923477408;
      split = refl;
    };
  };
  x_law = record { quotient = pos 0; split = refl };
  y_law = record {
    quotient =
        pos
          313912869351021175552095638354475319435719866822403256103793839727111434695402522007437748672709022944181123840026140012976076642505601989877288187536393899427418215919658923821043034718165221043996317890960162518762831745378375357102403309936170782468110973434315685750709096189645234905588967493870803545;
    split = refl;
  };
}

base-OnCurve : OnCurve base_x base_y
unfolding ◌+ℤ◌ ◌-ℤ◌ ◌*ℤ◌
base-OnCurve = record {
  quotient =
      negsuc
        313912869351021175552095638354475319435719866822403256103793839727111434695402522007437748672709022944181123840026140012976076642505601989877288187536393899427418215919658923821043034718165221043996317890960162518762831745378375357102403309936170782468110973434315685750709096189645234905588967493870803544;
  split = refl;
}

-- The base point as an entry of a table.
abbrev base_entry : GePrecomp
base_entry = record {
  yplusx =
      negsuc 41141370
      ∷ negsuc 14356033
      ∷ pos 29566456
      ∷ negsuc 29893535
      ∷ pos 54414520
      ∷ pos 4014786
      ∷ negsuc 39564237
      ∷ pos 21800162
      ∷ negsuc 6079156
      ∷ pos 2047605
      ∷ [];
  yminusx =
      negsuc 12545710
      ∷ pos 934262
      ∷ negsuc 2722909
      ∷ pos 3049990
      ∷ negsuc 727427
      ∷ pos 9406986
      ∷ pos 12720692
      ∷ pos 5043384
      ∷ negsuc 47607934
      ∷ negsuc 15469376
      ∷ [];
  xy2d =
      negsuc 8738180
      ∷ pos 4489570
      ∷ pos 9688441
      ∷ negsuc 14785193
      ∷ pos 10184609
      ∷ negsuc 12363379
      ∷ pos 29287919
      ∷ pos 11864899
      ∷ negsuc 24514361
      ∷ negsuc 4438545
      ∷ [];
}

base_entry-IsPrecomp : IsPrecomp base_entry base_x base_y
unfolding limbs_value ◌+ℤ◌ ◌-ℤ◌ ◌*ℤ◌
base_entry-IsPrecomp = record {
  plus_stands = record {
    bounded = omega arith;
    stands = record { quotient = negsuc 0; split = refl };
  };
  minus_stands = record {
    bounded = omega arith;
    stands = record { quotient = negsuc 0; split = refl };
  };
  t_stands = record {
    bounded = omega arith;
    stands = record {
      quotient =
          negsuc
            896957630723197712181007115142256183408058410682177734506908811492381897477267582471458152935012533891671390170621909159938085238459361683640975553778968;
      split = refl;
    };
  };
}

cached_base_lem : IsCached (ge_p3_to_cached base_point) base_x base_y
cached_base_lem = ge_p3_to_cached-IsCached base_point base_x base_y base_point-IsP3

ge_add-IsP1P1_example : IsP1P1 (ge_add base_point (ge_p3_to_cached base_point)) double_x double_y
ge_add-IsP1P1_example =
    ge_add-IsP1P1 base_point (ge_p3_to_cached base_point) base_x base_y base_x base_y double_x
      double_y base_point-IsP3 cached_base_lem base_twice

ge_p2_dbl-IsP1P1_example : IsP1P1 (ge_p2_dbl (ge_p3_to_p2 base_point)) double_x double_y
ge_p2_dbl-IsP1P1_example =
    ge_p2_dbl-IsP1P1 (ge_p3_to_p2 base_point) base_x base_y double_x double_y
      (ge_p3_to_p2-IsP2 base_point base_x base_y base_point-IsP3) base-OnCurve base_twice

doubled : GeP1P1
doubled = ge_add base_point (ge_p3_to_cached base_point)

doubled-IsP1P1 : IsP1P1 doubled double_x double_y
unfolding doubled
doubled-IsP1P1 =
    ge_add-IsP1P1 base_point (ge_p3_to_cached base_point) base_x base_y base_x base_y double_x
      double_y base_point-IsP3 cached_base_lem base_twice
